-- ===== src/Approval/Gate.antt =====
-- The human gate: which answers approve, and which target versions can be approved at all.
use oracle_patching.Prelude.{
  String, ◌≡◌, refl, sym, ap, ◌∙◌, subst, ◌↔◌, inl, inr, true, false, ◌&&◌, Option, none, some,
  List, [], ◌∷◌, eq_iff, Bool-cases, code, ◌==◌,
}
use oracle_patching.Text.{is_empty, is_space, lstrip, rstrip, strip}
use oracle_patching.Errors.{Result, ok}
use oracle_patching.World.{
  World, Env, Event, M, ◌>>=◌, ◌>>◌, print, input, input_answer, now_iso, pure, first_line,
  typed_line,
}
use oracle_patching.Approval.{
  ApprovalReport, ApprovalDecision, render_text, print_override, confirmation_prompt, decide,
  request_confirmation,
}

-- No space at the front.
abbrev Trimmed : String → Type 0
Trimmed String.[] = Unit
Trimmed (String.◌∷◌ c s) = is_space c ≡ false

lstrip-Trimmed : (s : String) → Trimmed (lstrip s)
unfolding lstrip
lstrip-Trimmed String.[] = tt
lstrip-Trimmed (String.◌∷◌ c s) = elim (Bool-cases (is_space c)) [
  | inl space ↦ rw space (lstrip-Trimmed s)
  | inr other ↦ rw other other
]

rstrip-Trimmed : (s : String) → Trimmed s → Trimmed (rstrip s)
unfolding rstrip
rstrip-Trimmed String.[] h = tt
rstrip-Trimmed (String.◌∷◌ c s) h = rw h h

lstrip-of_Trimmed : (s : String) → Trimmed s → lstrip s ≡ s
unfolding lstrip
lstrip-of_Trimmed String.[] h = refl
lstrip-of_Trimmed (String.◌∷◌ c s) h = rw h

rstrip_idem : (s : String) → rstrip (rstrip s) ≡ rstrip s
unfolding rstrip
rstrip_idem String.[] = refl
rstrip_idem (String.◌∷◌ c s) = elim (Bool-cases (is_space c && is_empty (rstrip s))) [
  | inl blank ↦ rw blank
  | inr kept ↦ rw (kept, rstrip_idem s, kept)
]

strip_idem : (s : String) → strip (strip s) ≡ strip s
unfolding strip
strip_idem s =
    ap rstrip (lstrip-of_Trimmed (rstrip (lstrip s)) (rstrip-Trimmed (lstrip s) (lstrip-Trimmed s)))
    ∙ rstrip_idem (lstrip s)

-- What has happened when the question is asked.
abbrev pub events_at_question : ApprovalReport → World → List Event
events_at_question report w =
    ((print (render_text report) >> (print "" >> print_override report.missing_preconditions))
      w).1.events

-- The gate returns a decision that approves.
abbrev pub Approves : Env → ApprovalReport → World → Type 0
Approves env report w =
    (d : ApprovalDecision) × ((request_confirmation env report w).0 ≡ ok d) × (d.approved ≡ true)

record-eq : (d e : ApprovalDecision) → Result.ok d ≡ ok e → d.approved ≡ true → e.approved ≡ true
record-eq d e h a = let same : d ≡ e = cc in subst (λ x. x.approved ≡ true) same a

module _ (env : Env) (version : String) where
  abbrev decide_on : String → M ApprovalDecision
  decide_on answer =
      now_iso env >>= λ timestamp. pure (decide version (strip answer) env.user timestamp)

  answered_iff :
      (o : Option String) (w : World)
      → ((d : ApprovalDecision) × (((input_answer o >>= decide_on) w).0 ≡ ok d)
          × (d.approved ≡ true))
        ↔ ((answer : String) × (o ≡ some answer) × (strip answer ≡ version))
  unfolding input_answer decide
  answered_iff none w = (λ (d, h, a). cc, λ (answer, h, e). cc)
  answered_iff (some typed) w = (
    λ (d, h, a). (typed, refl, (eq_iff (strip typed) version).0 (record-eq d _ (sym h) a)),
    λ (answer, h, e).
        let same : answer ≡ typed = cc in
        (_, refl, (eq_iff (strip typed) version).1 (ap strip (sym same) ∙ e)),
  )

  asked_iff :
      (missing : List String) (prompt : String) (w : World)
      → ((d : ApprovalDecision) × (((print_override missing >> (input env prompt >>= decide_on))
              w).0
            ≡ ok d)
          × (d.approved ≡ true))
        ↔ ((answer : String) × (typed_line env (print_override missing w).1.events prompt
              ≡ some answer)
            × (strip answer ≡ version))
  unfolding print_override input
  asked_iff [] prompt w = answered_iff (typed_line env w.events prompt) _
  asked_iff (m ∷ ms) prompt w = answered_iff _ _

-- The gate approves exactly when the person at the terminal gives a line that, without the space
-- round it, is the target version.
pub request_confirmation-Approves_iff :
    (env : Env) (report : ApprovalReport) (w : World)
    → Approves env report w ↔ (
        (answer : String) × (typed_line env
            (events_at_question report w)
            (confirmation_prompt report.target_version)
          ≡ some answer)
        × (strip answer ≡ report.target_version))
unfolding request_confirmation
request_confirmation-Approves_iff env report w =
    asked_iff env report.target_version report.missing_preconditions
      (confirmation_prompt report.target_version) _

-- No newline in the text.
abbrev pub IsLine : String → Type 0
IsLine String.[] = Unit
IsLine (String.◌∷◌ c s) = ((code c == 10) ≡ false) × IsLine s

first_line-IsLine : (s : String) → IsLine (first_line s)
unfolding first_line
first_line-IsLine String.[] = tt
first_line-IsLine (String.◌∷◌ c s) = elim (Bool-cases (code c == 10)) [
  | inl end ↦ rw end tt
  | inr other ↦ rw other (other, first_line-IsLine s)
]

lstrip-IsLine : (s : String) → IsLine s → IsLine (lstrip s)
unfolding lstrip
lstrip-IsLine String.[] h = tt
lstrip-IsLine (String.◌∷◌ c s) h = elim (Bool-cases (is_space c)) [
  | inl space ↦ rw space (lstrip-IsLine s h.1)
  | inr other ↦ rw other h
]

rstrip-IsLine : (s : String) → IsLine s → IsLine (rstrip s)
unfolding rstrip
rstrip-IsLine String.[] h = tt
rstrip-IsLine (String.◌∷◌ c s) h = elim (Bool-cases (is_space c && is_empty (rstrip s))) [
  | inl blank ↦ rw blank tt
  | inr more ↦ rw more (h.0, rstrip-IsLine s h.1)
]

typed_line-IsLine :
    (env : Env) (es : List Event) (prompt answer : String)
    → typed_line env es prompt ≡ some answer
    → IsLine answer
typed_line-IsLine env es prompt answer h = from_typed (env.typed es prompt) h
  where
    from_typed :
        (o : Option String)
        → (let line : Option String = elim o [ none ↦ none | some s ↦ some (first_line s) ] in
            line ≡ some answer)
        → IsLine answer
    from_typed none e = cc
    from_typed (some s) e =
        let same : first_line s ≡ answer = cc in subst IsLine same (first_line-IsLine s)

-- In every world, whatever is typed, the gate approves only a report whose target version has no
-- space at its ends and no newline in it.
pub approved-IsTypable :
    (env : Env) (report : ApprovalReport) (w : World)
    → Approves env report w
    → (strip report.target_version ≡ report.target_version) × IsLine report.target_version
unfolding strip
approved-IsTypable env report w a =
    let (answer, typed, same) = (request_confirmation-Approves_iff env report w).0 a in
    (
      ap strip (sym same) ∙ strip_idem answer ∙ same,
      subst IsLine same (
          rstrip-IsLine (lstrip answer)
            (lstrip-IsLine answer (typed_line-IsLine env _ _ answer typed))),
    )
