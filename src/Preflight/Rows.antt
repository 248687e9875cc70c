-- ===== src/Preflight/Rows.antt =====
-- The rows of the checks: what they come to, and that they run nothing.
use oracle_patching.Prelude.{
  ℕ, String, ◌<>◌, ◌≡◌, refl, sym, ap, ◌∙◌, subst, Bool, true, false, not, ◌&&◌, List, [], ◌∷◌,
  ◌++◌, append-nil, append_assoc,
}
use oracle_patching.Errors.{Result, ok}
use oracle_patching.Text.Decimal.{decimal}
use oracle_patching.World.{World, Event, printed, ◌>>=◌, continue}
use oracle_patching.World.Trace.{commands, commands-append}
use oracle_patching.Preflight.{Row, is_failure, report, banner, conclude, rule, pure}

and_true : (a : Bool) → a ≡ a && true
and_true true = refl
and_true false = refl

and_assoc : (a b c : Bool) → (a && b) && c ≡ a && (b && c)
and_assoc true b c = refl
and_assoc false b c = refl

-- Whether every required row passed.
abbrev pub required : List Row → Bool
required [] = true
required ((name, (passed, msg), fatal) ∷ checks) =
    not (is_failure passed && fatal) && required checks

-- From `before` to `after` nothing was run.
abbrev pub Quiet : List Event → List Event → Type 0
Quiet before after = (es : List Event) × (after ≡ before ++ es) × (commands es ≡ [])

Quiet-trans : (a b c : List Event) → Quiet a b → Quiet b c → Quiet a c
Quiet-trans a b c (es, added, quiet) (fs, added', quiet') = (
  es ++ fs,
  added' ∙ ap (λ l. l ++ fs) added ∙ append_assoc a es fs,
  commands-append es fs ∙ ap (λ l. l ++ commands fs) quiet ∙ quiet',
)

report-required :
    (checks : List Row) (all : Bool) (w : World)
    → ((report checks all w).0 ≡ ok (all && required checks))
      × Quiet w.events (report checks all w).1.events
unfolding report
report-required [] all w = (ap ok (and_true all), ([], sym (append-nil w.events), refl))
report-required ((name, (passed, msg), fatal) ∷ checks) all w =
    let (answer, (es, added, quiet)) =
      report-required checks (all && not (is_failure passed && fatal)) _ in
    (
      answer ∙ ap ok (and_assoc all (not (is_failure passed && fatal)) (required checks)),
      (printed _ ∷ es, added ∙ append_assoc w.events _ es, quiet),
    )

abbrev ending : Bool → World → Result Bool × World
ending all = conclude all >>= λ _. pure all

-- An end of the checks with the answer `b`, after which nothing was run.
abbrev pub Ended : Bool → World → Result Bool × World → Type 0
Ended b w end = (end.0 ≡ ok b) × Quiet w.events end.1.events

ending-Ended : (b : Bool) (w : World) → Ended b w (ending b w)
ending-Ended true w = (refl, (printed _ ∷ [], refl, refl))
ending-Ended false w = (refl, (printed _ ∷ printed _ ∷ [], append_assoc w.events _ _, refl))

pub report-Ended :
    (checks : List Row) (w : World) → Ended (required checks) w ((report checks true >>= ending) w)
report-Ended checks w =
    let (answer, quiet) = report-required checks true w in
    let after : World = (report checks true w).1 in
    let (ended, quiet') : Ended (required checks) after
        (continue (report checks true w).0 ending after) =
      subst (λ r. Ended (required checks) after (continue r ending after)) (sym answer)
        (ending-Ended (required checks) after) in
    (ended, Quiet-trans w.events after.events _ quiet quiet')

pub required_rows :
    (a b c d : Bool)
    → (not (a && true) && (not (b && true) && (not (c && true) && (not (d && false) && true))))
      ≡ not a && (not b && not c)
required_rows true b c d = refl
required_rows false true c d = refl
required_rows false false true d = refl
required_rows false false false true = refl
required_rows false false false false = refl

-- One more event at the end.
pub one_more :
    (before es after : List Event) (e : Event)
    → after ≡ before ++ es
    → after ++ e ∷ [] ≡ before ++ (es ++ e ∷ [])
one_more before es after e added = ap (λ l. l ++ e ∷ []) added ∙ append_assoc before es (e ∷ [])

one_print : (a b : List Event) (text : String) → Quiet a b → Quiet a (b ++ printed text ∷ [])
one_print a b text q = Quiet-trans a b _ q (printed text ∷ [], refl, refl)

pub banner-Quiet : (n : ℕ) (title : String) (w : World) → Quiet w.events (banner n title w).1.events
banner-Quiet n title w =
    let nothing : Quiet w.events w.events = ([], sym (append-nil w.events), refl) in
    let blank = one_print w.events _ "" nothing in
    let step =
      one_print w.events _ (" STEP " <> decimal n <> ": " <> title)
        (one_print w.events _ rule blank) in
    one_print w.events _ rule step
