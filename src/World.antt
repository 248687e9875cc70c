-- ===== src/World.antt =====
-- The effects of a run: subprocesses, the audit log, the terminal and the clock, as a monad over the
-- world that may raise. What was written before a raise stays written.
pub mod Trace
pub mod Extends
use oracle_patching.Prelude.{
  ℕ, ◌+◌, ◌-◌, ◌%◌, String, code, ap, not, Option, none, some, List, [], ◌∷◌, ◌++◌, ◌==◌,
  if◌then◌else◌,
}
use oracle_patching.Prelude.Int.{ℤ}
use oracle_patching.Json.{Json}
use oracle_patching.Errors.{Exc, Result, ok, raise, eof_error}
use oracle_patching.Audit.{AuditEntry, Log, EventType, event_name}
use oracle_patching.Audit

-- A call of `subprocess.run`: the argument list, the working directory, what it adds to the
-- environment, and the timeout in seconds.
pub record Command : Type 0 where
  pub argv : List String
  pub cwd : String
  pub extra_env : List (String × String)
  pub timeout : ℕ

-- What came of it. A process that was killed may have written part of its output. `unavailable` is
-- the OSError of a program that cannot be started.
pub data Outcome : Type 0 where
  completed : ℤ → String → String → Outcome
  timed_out : Option String → Outcome
  unavailable : String → Outcome

-- What a run does, as the outside sees it.
pub data Event : Type 0 where
  ran : Command → Event
  logged : AuditEntry → Event
  printed : String → Event
  asked : String → Event

-- The surroundings. What a process or the person at the terminal answers may depend on all that
-- happened before; what is typed may be more than one line, and `none` is the end of the input.
-- The n-th reading of the clock has an ISO form and a stamp `%Y%m%d%H%M%S`.
pub record Env : Type 0 where
  pub sha256_hex : String → String
  pub subprocess : List Event → Command → Outcome
  pub typed : List Event → String → Option String
  pub user : String
  pub isoformat : ℕ → String
  pub stamp : ℕ → String

-- `events` is the history, oldest first; `log` is the audit file; `readings` counts the readings of
-- the clock.
pub record World : Type 0 where
  pub events : List Event
  pub log : Log
  pub readings : ℕ

abbrev pub M : Type 0 → Type 0
M A = World → Result A × World

abbrev pub continue : {A B : Type 0} → Result A → (A → M B) → M B
continue (ok a) f w = f a w
continue (raise e) f w = (raise e, w)

infixl 5 ◌>>=◌ ◌>>◌
abbrev pub ◌>>=◌ : {A B : Type 0} → M A → (A → M B) → M B
◌>>=◌ m f w = let (r, w') = m w in continue r f w'

abbrev pub ◌>>◌ : {A B : Type 0} → M A → M B → M B
m >> k = m >>= λ _. k

abbrev pub pure : {A : Type 0} → A → M A
pure a w = (ok a, w)

abbrev pub throw : {A : Type 0} → Exc → M A
throw e w = (raise e, w)

abbrev pub lift : {A : Type 0} → Result A → M A
lift r w = (r, w)

abbrev pub record_event : Event → World → World
record_event e w = record w { events = w.events ++ e ∷ [] }

abbrev pub print : String → M Unit
print text w = (ok tt, record_event (printed text) w)

-- What is before the first newline.
unfoldable pub first_line : String → String
first_line String.[] = ""
first_line (String.◌∷◌ c s) =
    let rest = first_line s in if code c == 10 then "" else String.◌∷◌ c rest

unfoldable pub input_answer : Option String → M String
input_answer (some answer) = pure answer
input_answer none = throw (eof_error "EOF when reading a line")

module _ (env : Env) where
  abbrev pub now_iso : M String
  now_iso w = (ok (env.isoformat w.readings), record w { readings = w.readings + 1 })

  abbrev pub now_stamp : M String
  now_stamp w = (ok (env.stamp w.readings), record w { readings = w.readings + 1 })

  -- subprocess.run(…, capture_output=True, check=False)
  unfoldable pub run_process : Command → M Outcome
  run_process c w = (ok (env.subprocess w.events c), record_event (ran c) w)

  -- The line that `input` reads at that point, without its newline.
  abbrev pub typed_line : List Event → String → Option String
  typed_line es prompt = elim (env.typed es prompt) [ none ↦ none | some s ↦ some (first_line s) ]

  -- input(prompt)
  unfoldable pub input : String → M String
  unfolding input_answer first_line
  input prompt w = input_answer (typed_line w.events prompt) (record_event (asked prompt) w)

  -- The entry that `audit.append` makes in the world `w`.
  abbrev pub written : EventType → Json → World → AuditEntry
  written event_type payload w =
      (Audit.append env.sha256_hex (env.isoformat w.readings) (event_name event_type) payload
        w.log).0

  -- audit.append(event_type, payload) on the world's log.
  unfoldable pub audit_append : EventType → Json → M AuditEntry
  audit_append event_type payload w =
      let (entry, log) =
        Audit.append env.sha256_hex (env.isoformat w.readings) (event_name event_type) payload
          w.log in
      (
        ok entry,
        record { events = w.events ++ logged entry ∷ []; log = log; readings = w.readings + 1 },
      )
