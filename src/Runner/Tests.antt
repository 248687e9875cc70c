-- ===== src/Runner/Tests.antt =====
-- Calls of a playbook in the sample surroundings.
use oracle_patching.Prelude.{String, ◌≡◌, ◌⊎◌, none, some, [], ◌∷◌}
use oracle_patching.Errors.{raise, value_error}
use oracle_patching.Runner.{Vars, run_apply}
use oracle_patching.Runner.Argv.{get_var, IsUpdate, Runs, run_apply-confirmed}
use oracle_patching.Samples.{sample_env, sample_world}

-- A caller that asks for a full run.
abbrev full_vars : Vars
full_vars = ("run_full_patch", "true") ∷ []

run_apply-confirmed_example :
    let (result, after) =
      run_apply sample_env "/srv/ansible" "apply.yml" "hosts.yml" [] "confirm_patch" "ru_patch" 600
        sample_world in
    (((v : String) × (get_var "confirm_patch" [] ≡ some v))
      × (after ≡ sample_world)
      × ((m : String) × (result ≡ raise (value_error m))))
    ⊎ ((get_var "confirm_patch" [] ≡ none)
        × ((vars' : Vars) × Runs sample_env "/srv/ansible" "apply.yml" "hosts.yml" [] 600
              sample_world vars' after
            × IsUpdate "confirm_patch" "ru_patch" [] vars'))
run_apply-confirmed_example =
    run_apply-confirmed sample_env "/srv/ansible" "apply.yml" "hosts.yml" [] "confirm_patch"
      "ru_patch" 600 sample_world
