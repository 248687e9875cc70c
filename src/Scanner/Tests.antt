-- ===== src/Scanner/Tests.antt =====
-- A playbook that reports one host.
use oracle_patching.Prelude.{◌≡◌, refl, inl, [], ◌∷◌}
use oracle_patching.Json.{Json, str, arr, nil, cons, object}
use oracle_patching.Errors.{ok}
use oracle_patching.World.{ran, run_process}
use oracle_patching.Scanner.Scan.{scan, scan_command}
use oracle_patching.Scanner.Sound.{ReportedRun, scan-Reported}
use oracle_patching.Samples.{sample_env, sample_world}

abbrev host_facts : Json
host_facts = object (("oracle_home", str "/u01/db") ∷ [])

-- The first task reports nothing.
abbrev output : Json
output =
    let hosts = object (("db1", object (("scan_result", host_facts) ∷ [])) ∷ []) in
    let tasks = arr (cons (object []) (cons (object (("hosts", hosts) ∷ [])) nil)) in
    object (("plays", arr (cons (object (("tasks", tasks) ∷ [])) nil)) ∷ [])

sample_scan :
    (scan
      (λ text. inl output)
      sample_env
      "scan.yml"
      "/srv/ansible"
      "hosts.yml"
      "db1"
      (arr nil)
      600
      sample_world).0
    ≡ ok host_facts
unfolding scan run_process
sample_scan = refl

scan-Reported_example :
    ((scan
        (λ text. inl output)
        sample_env
        "scan.yml"
        "/srv/ansible"
        "hosts.yml"
        "db1"
        (arr nil)
        600
        sample_world).1
      ≡ record sample_world {
        events = ran (scan_command "scan.yml" "/srv/ansible" "hosts.yml" "db1" (arr nil) 600) ∷ [];
      })
    × ReportedRun
        (λ text. inl output)
        "db1"
        (sample_env.subprocess []
          (scan_command "scan.yml" "/srv/ansible" "hosts.yml" "db1" (arr nil) 600))
        host_facts
scan-Reported_example =
    scan-Reported (λ text. inl output) sample_env "scan.yml" "/srv/ansible" "hosts.yml" "db1"
      (arr nil) 600 sample_world host_facts sample_scan
