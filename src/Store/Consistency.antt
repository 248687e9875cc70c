-- ===== src/Store/Consistency.antt =====
-- The state of a database answers to the history of its executions.
use oracle_patching.Prelude.{
  String, ◌≡◌, refl, sym, ap, ◌∙◌, subst, inl, inr, Bool, true, false, ◌&&◌, Option, none, some,
  List, [], ◌∷◌, ◌++◌, arith, str_eq, eq_iff, if◌then◌else◌, Bool-cases,
}
use oracle_patching.Prelude.Dict.{Dict, lookup, has, insert, or_else, lookup-insert, lookup-has}
use oracle_patching.Json.{Json}
use oracle_patching.Store.{
  DatabaseState, ExecutionRow, ExecutionArgs, Tables, empty_tables, scanned_state,
  upsert_scan_result, execution_row, patched_states, record_execution, get_database_state,
}

abbrev is_success_of : String → ExecutionRow → Bool
is_success_of target e = str_eq e.target target && str_eq e.outcome "SUCCESS"

-- The last successful execution on a target.
unfoldable pub last_success : String → List ExecutionRow → Option ExecutionRow
last_success target [] = none
last_success target (e ∷ es) =
    or_else (last_success target es) (if is_success_of target e then some e else none)

abbrev pub level_of : Option ExecutionRow → Option String
level_of none = none
level_of (some e) = some e.procedure_id

abbrev pub date_of : Option ExecutionRow → Option String
date_of none = none
date_of (some e) = e.finished_at

-- A call of one of the two writers.
pub data Write : Type 0 where
  scanned : (now target oracle_home : String) → Json → Write
  executed : (now : String) → ExecutionArgs → Write

abbrev pub write : Write → Tables → Tables
write (scanned now target oracle_home scan_result) t =
    upsert_scan_result now target oracle_home scan_result t
write (executed now a) t = (record_execution now a t).1

-- The tables after the writes, oldest first.
unfoldable pub write_all : List Write → Tables → Tables
write_all [] t = t
write_all (w ∷ ws) t = write_all ws (write w t)

-- What `database_state` shows of a target, `none` being no row, answers to a history: a row stands
-- under its target and shows the procedure and the date of the last successful execution, and where
-- there is no row no execution succeeded.
abbrev pub Answers : String → List ExecutionRow → Option DatabaseState → Type 0
Answers target history none = last_success target history ≡ none
Answers target history (some row) =
    (row.target ≡ target)
    × (row.last_patch_level ≡ level_of (last_success target history))
    × (row.last_patch_date ≡ date_of (last_success target history))

abbrev IsConsistent : Tables → Type 0
IsConsistent t = (target : String) → Answers target t.history (lookup target t.states)

last_success-append :
    (k : String) (es : List ExecutionRow) (e : ExecutionRow)
    → last_success k (es ++ e ∷ []) ≡ (if is_success_of k e then some e else last_success k es)
unfolding last_success
last_success-append k [] e = ground arith
last_success-append k (x ∷ es) e = ground (arith, last_success-append k es e)

Answers-same :
    (k : String) (h h' : List ExecutionRow) (o : Option DatabaseState)
    → last_success k h' ≡ last_success k h
    → Answers k h o
    → Answers k h' o
Answers-same k h h' none e a = e ∙ a
Answers-same k h h' (some row) e (keyed, level, date) =
    (keyed, level ∙ ap level_of (sym e), date ∙ ap date_of (sym e))

scanned_state-Answers :
    (now target oracle_home : String) (scan_result : Json) (history : List ExecutionRow)
    (o : Option DatabaseState)
    → Answers target history o
    → Answers target history (some (scanned_state now target oracle_home scan_result o))
unfolding scanned_state
scanned_state-Answers now target oracle_home scan_result history none a =
    (refl, ap level_of (sym a), ap date_of (sym a))
scanned_state-Answers now target oracle_home scan_result history (some row) a = a

-- A row that is written under its target, by the answers of the row and of the others.
insert-Answers :
    (target k : String) (row : DatabaseState) (states : Dict DatabaseState)
    (history : List ExecutionRow)
    → Answers target history (some row)
    → (str_eq target k ≡ false → Answers k history (lookup k states))
    → Answers k history (lookup k (insert target row states))
insert-Answers target k row states history written others =
    subst (Answers k history) (sym (lookup-insert target k row states))
      (elim (Bool-cases (str_eq target k)) [
        | inl same ↦
            rw same (subst (λ x. Answers x history (some row)) ((eq_iff target k).0 same) written)
        | inr differ ↦ rw differ (others differ)
      ])

upsert-IsConsistent :
    (now target oracle_home : String) (scan_result : Json) (t : Tables)
    → IsConsistent t
    → IsConsistent (upsert_scan_result now target oracle_home scan_result t)
unfolding upsert_scan_result
upsert-IsConsistent now target oracle_home scan_result t c k =
    insert-Answers target k _ t.states t.history
      (scanned_state-Answers now target oracle_home scan_result t.history _ (c target))
      (λ differ. c k)

-- The history after one more execution.
abbrev extended : Tables → ExecutionArgs → List ExecutionRow
extended t a = t.history ++ execution_row t.serial a ∷ []

unaffected :
    (t : Tables) (a : ExecutionArgs) (k : String)
    → IsConsistent t
    → is_success_of k (execution_row t.serial a) ≡ false
    → Answers k (extended t a) (lookup k t.states)
unaffected t a k c h =
    Answers-same k t.history (extended t a) (lookup k t.states)
      (last_success-append k t.history (execution_row t.serial a) ∙ rw h refl) (c k)

patched_states-Answers :
    (now : String) (a : ExecutionArgs) (t : Tables) (o : Option DatabaseState) (k : String)
    → lookup a.target t.states ≡ o
    → has a.target t.states ≡ true
    → str_eq a.outcome "SUCCESS" ≡ true
    → IsConsistent t
    → Answers k (extended t a) (lookup k (patched_states now a o t.states))
unfolding patched_states
patched_states-Answers now a t none k e known success c =
    absurd (ground (arith, lookup-has a.target t.states))
patched_states-Answers now a t (some row) k e known success c =
    let latest : last_success a.target (extended t a) ≡ some (execution_row t.serial a) =
      last_success-append a.target t.history (execution_row t.serial a)
      ∙ ground (arith, eq_iff a.target a.target) in
    let keyed : row.target ≡ a.target = (rw e at (c a.target)).0 in
    insert-Answers a.target k _ t.states (extended t a)
      (keyed, ap level_of (sym latest), ap date_of (sym latest))
      (λ differ. unaffected t a k c (ground arith))

record_execution-IsConsistent :
    (now : String) (a : ExecutionArgs) (t : Tables)
    → IsConsistent t
    → IsConsistent (record_execution now a t).1
unfolding record_execution
record_execution-IsConsistent now a t c k = elim (Bool-cases (has a.target t.states)) [
  | inr unknown ↦ rw unknown (c k)
  | inl known ↦ elim (Bool-cases (str_eq a.outcome "SUCCESS")) [
    | inl success ↦
        rw (known, success)
          (patched_states-Answers now a t (lookup a.target t.states) k refl known success c)
    | inr failed ↦ rw (known, failed) (unaffected t a k c (ground arith))
  ]
]

write_all-IsConsistent :
    (ws : List Write) (t : Tables) → IsConsistent t → IsConsistent (write_all ws t)
unfolding write_all
write_all-IsConsistent [] t c = c
write_all-IsConsistent (scanned now target oracle_home scan_result ∷ ws) t c =
    write_all-IsConsistent ws _ (upsert-IsConsistent now target oracle_home scan_result t c)
write_all-IsConsistent (executed now a ∷ ws) t c =
    write_all-IsConsistent ws _ (record_execution-IsConsistent now a t c)

-- After any writes into empty tables, whatever their order and outcomes, what `get_database_state`
-- returns for a target answers to the history: its patch level and date are the procedure and the
-- end of the last execution on the target that was recorded as a success, and are empty if there is
-- none; and a target without a row has no such execution.
pub get_database_state-Answers :
    (ws : List Write) (target : String)
    → Answers target
        (write_all ws empty_tables).history
        (get_database_state target (write_all ws empty_tables))
unfolding get_database_state
get_database_state-Answers ws target =
    write_all-IsConsistent ws empty_tables (λ k. unfold lookup last_success in refl) target
