-- ===== src/Demo/Adds.antt =====
-- What the demonstration prints adds nothing to the audit log.
use oracle_patching.Prelude.{ℕ, String, ◌⊎◌, Bool, true, false, not, ◌&&◌, List, [], ◌∷◌}
use oracle_patching.Errors.{Result}
use oracle_patching.Json.{Json, Items, nil, cons}
use oracle_patching.Audit.Read.{Loaded}
use oracle_patching.World.{Env, M, lift}
use oracle_patching.World.Extends.{
  Extends, Extends-refl, Extends-trans, Adds, adds_rules, Adds-pure, Adds-throw,
}
use oracle_patching.Scanner.Scan.{scan}
use oracle_patching.Retrieval.{Payload}
use oracle_patching.Preflight.{
  is_failure, Targets, Services, banner, report, conclude, conclude_rows, conclude_with,
  check_vm_ansible, run_preflight, Row,
}
use oracle_patching.Demo.Lines.{
  print_all, print_item, print_cdb, print_cdbs, print_scan, print_hits, print_entries,
}
use oracle_patching.Demo.{caught, caught_scan, audit_text}

module _ (env : Env) where
  pub lift-Adds : {A : Type 0} (r : Result A) → Adds env (lift r)
  lift-Adds r = record { at = λ w. Extends-refl env.sha256_hex w }

  pub audit_text-Adds : Adds env audit_text
  audit_text-Adds = record { at = λ w. Extends-refl env.sha256_hex w }

  pub caught-Adds : (m : M Unit) → Adds env m → Adds env (caught m)
  caught-Adds m p = record { at = p.at }

  pub caught_scan-Adds : (m : M Json) → Adds env m → Adds env (caught_scan m)
  caught_scan-Adds m p = record { at = p.at }

  pub ruleset parts = (adds_rules, lift-Adds, audit_text-Adds, caught-Adds, caught_scan-Adds)

  pub print_all-Adds : (lines : List String) → Adds env (print_all lines)
  unfolding print_all
  print_all-Adds [] = search parts
  print_all-Adds (l ∷ ls) = let more = print_all-Adds ls in search parts

  pub print_cdb-Adds : (cdb : Json) → Adds env (print_cdb cdb)
  unfolding print_cdb
  print_cdb-Adds cdb = search parts depth 12

  pub print_cdbs-Adds : (xs : Items) → Adds env (print_cdbs xs)
  unfolding print_cdbs
  print_cdbs-Adds nil = search parts
  print_cdbs-Adds (cons x xs) = let more = print_cdbs-Adds xs in search (parts, print_cdb-Adds)

  pub print_item-Adds : (label key : String) (j : Json) → Adds env (print_item label key j)
  unfolding print_item
  print_item-Adds label key j = search parts

  pub print_scan-Adds : (j : Json) → Adds env (print_scan j)
  unfolding print_scan
  print_scan-Adds j = search (parts, print_item-Adds, print_cdbs-Adds) depth 14

  pub print_hits-Adds : (hits : List Payload) → Adds env (print_hits hits)
  unfolding print_hits
  print_hits-Adds [] = search parts
  print_hits-Adds (h ∷ hs) = let more = print_hits-Adds hs in search parts depth 9

  pub print_entries-Adds : (es : List Loaded) → Adds env (print_entries es)
  unfolding print_entries
  print_entries-Adds [] = search parts
  print_entries-Adds (e ∷ es) = let more = print_entries-Adds es in search parts depth 9

  pub banner-Adds : (n : ℕ) (title : String) → Adds env (banner n title)
  banner-Adds n title = search parts

  pub scan-Adds :
      (loads : String → Json ⊎ String) (playbook dir inventory target : String) (cdbs : Json)
      (timeout : ℕ)
      → Adds env (scan loads env playbook dir inventory target cdbs timeout)
  unfolding scan
  scan-Adds loads playbook dir inventory target cdbs timeout = search parts

  pub report-Adds : (rows : List Row) (all : Bool) → Adds env (report rows all)
  unfolding report
  report-Adds [] all = search parts
  report-Adds ((name, (passed, msg), fatal) ∷ rows) all =
      let more = report-Adds rows (all && not (is_failure passed && fatal)) in search parts

  pub conclude-Adds : (all : Bool) → Adds env (conclude all)
  conclude-Adds true = search parts
  conclude-Adds false = search parts

  pub run_preflight-Adds :
      (services : Services) (t : Targets) → Adds env (run_preflight services t env)
  unfolding run_preflight check_vm_ansible conclude_with conclude_rows
  run_preflight-Adds services t = search (parts, banner-Adds, report-Adds, conclude-Adds) depth 10
