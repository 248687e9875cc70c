-- ===== src/Scanner/Sound.antt =====
-- Where the result of a scan comes from.
use oracle_patching.Prelude.{
  ℕ, String, ◌≡◌, refl, ap, ◌∙◌, ◌⊎◌, inl, inr, true, false, Option, none, some, List, [], ◌∷◌,
  ◌++◌, Bool-cases,
}
use oracle_patching.Prelude.Int.{is_zero}
use oracle_patching.Json.{Json, Fields, null, bool, num, str, arr, obj, nil, end}
use oracle_patching.Errors.{Result, ok, returned-parts}
use oracle_patching.Text.{contains}
use oracle_patching.World.{World, Env, ran, Outcome, completed, timed_out, unavailable, run_process}
use oracle_patching.Scanner
use oracle_patching.Scanner.{
  member, elements, host_scan_result, or_next, search_tasks, search_plays, found_or_fail,
  search_parsed, read_output,
}
use oracle_patching.Scanner.Scan.{scan, scan_command, scan_result_of}

-- The task holds, for the host, an object with the fact.
pub record ReportedBy (target : String) (result task : Json) : Type 0 where
  pub hosts : Json
  pub hosts_of_task : Scanner.get "hosts" (obj end) task ≡ ok hosts
  pub facts : Fields
  pub of_target : Scanner.get target null hosts ≡ ok (obj facts)
  pub fact : member "scan_result" facts ≡ some result

abbrev pub Any : (Json → Type 0) → List Json → Type 0
Any P [] = ⊥
Any P (x ∷ xs) = P x ⊎ Any P xs

-- Some task of the play reports the result.
pub record InPlay (target : String) (result play : Json) : Type 0 where
  pub tasks : Json
  pub tasks_of_play : Scanner.get "tasks" (arr nil) play ≡ ok tasks
  pub list : List Json
  pub listed : elements tasks ≡ ok list
  pub reported : Any (ReportedBy target result) list

host_scan_result-fact :
    (j : Json) (result : Json)
    → host_scan_result j ≡ ok (some result)
    → (facts : Fields) × (j ≡ obj facts) × (member "scan_result" facts ≡ some result)
unfolding host_scan_result
host_scan_result-fact (obj fs) result h = (fs, refl, cc)
host_scan_result-fact null result h = cc
host_scan_result-fact (bool false) result h = cc
host_scan_result-fact (bool true) result h = cc
host_scan_result-fact (num n) result h = elim (Bool-cases (is_zero n)) [
  | inl there ↦ let e = rw there at h in cc
  | inr other ↦ let e = rw other at h in cc
]
host_scan_result-fact (str s) result h = elim (Bool-cases (contains "scan_result" s)) [
  | inl there ↦ let e = rw there at h in cc
  | inr other ↦ let e = rw other at h in cc
]
host_scan_result-fact (arr xs) result h = elim (Bool-cases (Scanner.any_key (Scanner.listed xs))) [
  | inl there ↦ let e = rw there at h in cc
  | inr other ↦ let e = rw other at h in cc
]

or_next-parts :
    (found : Option Json) (rest : Result (Option Json)) (result : Json)
    → or_next found rest ≡ ok (some result)
    → (found ≡ some result) ⊎ (rest ≡ ok (some result))
or_next-parts (some j) rest result h = inl cc
or_next-parts none rest result h = inr h

search_tasks-Reported :
    (target : String) (tasks : List Json) (result : Json)
    → search_tasks target tasks ≡ ok (some result)
    → Any (ReportedBy target result) tasks
unfolding search_tasks
search_tasks-Reported target [] result h = cc
search_tasks-Reported target (task ∷ tasks) result h =
    let (hosts, e1, h1) = returned-parts (Scanner.get "hosts" (obj end) task) _ h in
    let (host_result, e2, h2) = returned-parts (Scanner.get target null hosts) _ h1 in
    let (found, e3, h3) = returned-parts (host_scan_result host_result) _ h2 in
    elim (or_next-parts found (search_tasks target tasks) result h3) [
      | inl here ↦
          let (facts, e4, e5) = host_scan_result-fact host_result result (e3 ∙ ap ok here) in
          inl (record {
            hosts = hosts;
            hosts_of_task = e1;
            facts = facts;
            of_target = e2 ∙ ap ok e4;
            fact = e5;
          })
      | inr later ↦ inr (search_tasks-Reported target tasks result later)
    ]

search_plays-Reported :
    (target : String) (plays : List Json) (result : Json)
    → search_plays target plays ≡ ok (some result)
    → Any (InPlay target result) plays
unfolding search_plays
search_plays-Reported target [] result h = cc
search_plays-Reported target (play ∷ plays) result h =
    let (tasks, e1, h1) = returned-parts (Scanner.get "tasks" (arr nil) play) _ h in
    let (list, e2, h2) = returned-parts (elements tasks) _ h1 in
    let (found, e3, h3) = returned-parts (search_tasks target list) _ h2 in
    elim (or_next-parts found (search_plays target plays) result h3) [
      | inl here ↦ inl (record {
        tasks = tasks;
        tasks_of_play = e1;
        list = list;
        listed = e2;
        reported = search_tasks-Reported target list result (e3 ∙ ap ok here);
      })
      | inr later ↦ inr (search_plays-Reported target plays result later)
    ]

-- The plays of what the playbook printed, one of which reports the result.
pub record Reported (loads : String → Json ⊎ String) (target stdout : String) (result : Json)
    : Type 0 where
  pub parsed : Json
  pub parsed_stdout : loads stdout ≡ inl parsed
  pub plays : Json
  pub plays_of_output : Scanner.get "plays" (arr nil) parsed ≡ ok plays
  pub list : List Json
  pub listed : elements plays ≡ ok list
  pub reported : Any (InPlay target result) list

found_or_fail-found :
    (target : String) (found : Option Json) (result : Json)
    → found_or_fail target found ≡ ok result
    → found ≡ some result
found_or_fail-found target none result h = cc
found_or_fail-found target (some r) result h = cc

search_parsed-Reported :
    (loads : String → Json ⊎ String) (target stdout : String) (result : Json)
    (answer : Json ⊎ String)
    → loads stdout ≡ answer
    → search_parsed target answer ≡ ok result
    → Reported loads target stdout result
unfolding search_parsed
search_parsed-Reported loads target stdout result (inr message) e h = cc
search_parsed-Reported loads target stdout result (inl parsed) e h =
    let (plays, e1, h1) = returned-parts (Scanner.get "plays" (arr nil) parsed) _ h in
    let (list, e2, h2) = returned-parts (elements plays) _ h1 in
    let (found, e3, h3) = returned-parts (search_plays target list) _ h2 in
    record {
      parsed = parsed;
      parsed_stdout = e;
      plays = plays;
      plays_of_output = e1;
      list = list;
      listed = e2;
      reported =
          search_plays-Reported target list result
            (e3 ∙ ap ok (found_or_fail-found target found result h3));
    }

-- The process printed a text and ended with the return code 0, and the text reports the result.
abbrev pub ReportedRun : (String → Json ⊎ String) → String → Outcome → Json → Type 0
ReportedRun loads target (completed rc out err) result =
    (is_zero rc ≡ true) × Reported loads target out result
ReportedRun loads target _ result = ⊥

scan_result_of-Reported :
    (loads : String → Json ⊎ String) (target : String) (timeout : ℕ) (outcome : Outcome)
    (result : Json)
    → scan_result_of loads target timeout outcome ≡ ok result
    → ReportedRun loads target outcome result
unfolding scan_result_of read_output
scan_result_of-Reported loads target timeout (completed rc out err) result h =
    elim (Bool-cases (is_zero rc)) [
      | inl zero_rc ↦
          let read = rw zero_rc at h in
          (zero_rc, search_parsed-Reported loads target out result (loads out) refl read)
      | inr other ↦ let e = rw other at h in cc
    ]
scan_result_of-Reported loads target timeout (timed_out out) result h = cc
scan_result_of-Reported loads target timeout (unavailable m) result h = cc

-- If `scan` returns a result, then it ran one process, the playbook with the JSON callback, and did
-- nothing else that is seen outside; that process ended with the return code 0, and what it printed
-- was parsed to an object in which some task of some play holds the result as the fact `scan_result`
-- of the target.
pub scan-Reported :
    (loads : String → Json ⊎ String) (env : Env) (playbook ansible_dir inventory target : String)
    (cdbs : Json) (timeout : ℕ) (w : World) (result : Json)
    → (scan loads env playbook ansible_dir inventory target cdbs timeout w).0 ≡ ok result
    → ((scan loads env playbook ansible_dir inventory target cdbs timeout w).1 ≡ record w {
      events =
          w.events ++ ran (scan_command playbook ansible_dir inventory target cdbs timeout) ∷ [];
    })
      × ReportedRun loads target
          (env.subprocess w.events
            (scan_command playbook ansible_dir inventory target cdbs timeout))
          result
unfolding scan run_process
scan-Reported loads env playbook ansible_dir inventory target cdbs timeout w result h =
    (refl, scan_result_of-Reported loads target timeout _ result h)
