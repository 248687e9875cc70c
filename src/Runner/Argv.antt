-- ===== src/Runner/Argv.antt =====
-- What the calls of a playbook put on the command line, and when they count as a success.
use oracle_patching.Prelude.{
  ℕ, String, ◌≡◌, refl, ap, subst, ◌↔◌, ◌⊎◌, inl, inr, true, false, Option, none, some, [], ◌∷◌,
  ◌++◌, arith, str_eq, eq_iff, if◌then◌else◌, Bool-cases,
}
use oracle_patching.Prelude.Int.{ℤ, pos, negsuc, is_zero}
use oracle_patching.Errors.{Result, ok, raise, value_error}
use oracle_patching.World.{Outcome, completed, timed_out, World, Env, ran, unavailable, run_process}
use oracle_patching.Runner.{
  PlaybookResult, Vars, has_var, put_var, playbook_command, playbook_result, run, run_apply,
  run_process, succeeded,
}

-- The value of a variable, `none` where it is not set.
unfoldable pub get_var : String → Vars → Option String
get_var k [] = none
get_var k ((j, v) ∷ vars) = if str_eq j k then some v else get_var k vars

get_var-put_var_same : (k v : String) (vars : Vars) → get_var k (put_var k v vars) ≡ some v
unfolding get_var put_var
get_var-put_var_same k v [] = ground (arith, eq_iff k k)
get_var-put_var_same k v ((j, w) ∷ vars) = ground (arith, get_var-put_var_same k v vars)

get_var-put_var_other :
    (k j v : String) (vars : Vars)
    → str_eq k j ≡ false
    → get_var j (put_var k v vars) ≡ get_var j vars
unfolding get_var put_var
get_var-put_var_other k j v [] h = rw h
get_var-put_var_other k j v ((i, w) ∷ vars) h =
    ground (arith, eq_iff i k, get_var-put_var_other k j v vars h)

-- The variables are `vars` with `key` set to `value`.
abbrev pub IsUpdate : String → String → Vars → Vars → Type 0
IsUpdate key value vars vars' =
    (get_var key vars' ≡ some value)
    × ((j : String) → str_eq key j ≡ false → get_var j vars' ≡ get_var j vars)

put_var-IsUpdate :
    (key value : String) (vars : Vars) → IsUpdate key value vars (put_var key value vars)
put_var-IsUpdate key value vars =
    (get_var-put_var_same key value vars, λ j. get_var-put_var_other key j value vars)

has_var-eq :
    (k : String) (vars : Vars) → has_var k vars ≡ true → (v : String) × (get_var k vars ≡ some v)
unfolding has_var get_var
has_var-eq k [] h = cc
has_var-eq k ((j, v) ∷ vars) h = elim (Bool-cases (str_eq j k)) [
  | inl same ↦ (v, rw same refl)
  | inr other ↦ let (v', e) = has_var-eq k vars (ground (arith, h, other)) in (v', rw other e)
]

has_var-ne : (k : String) (vars : Vars) → has_var k vars ≡ false → get_var k vars ≡ none
unfolding has_var get_var
has_var-ne k [] h = refl
has_var-ne k ((j, v) ∷ vars) h = ground (arith, has_var-ne k vars)

playbook_result-world :
    (playbook : String) (timeout : ℕ) (o : Outcome) (w : World)
    → (playbook_result playbook timeout o w).1 ≡ w
unfolding playbook_result
playbook_result-world playbook timeout (completed rc out err) w = refl
playbook_result-world playbook timeout (timed_out out) w = refl
playbook_result-world playbook timeout (unavailable m) w = refl

succeeded-eq : (a b : PlaybookResult) → Result.ok a ≡ ok b → succeeded b ≡ true → succeeded a ≡ true
succeeded-eq a b h s = let same : b ≡ a = cc in subst (λ x. succeeded x ≡ true) same s

playbook_result-succeeds_iff :
    (playbook : String) (timeout : ℕ) (o : Outcome) (w : World)
    → ((r : PlaybookResult) × ((playbook_result playbook timeout o w).0 ≡ ok r)
        × (succeeded r ≡ true))
      ↔ ((out err : String) × (o ≡ completed (pos 0) out err))
unfolding playbook_result
playbook_result-succeeds_iff playbook timeout (completed rc out err) w = (
  λ (r, h, s).
      let zero_code : rc ≡ pos 0 = eq_zero rc (succeeded-eq _ r h s) in
      (out, err, ap (λ c. completed c out err) zero_code),
  λ (out', err', h). (_, refl, let e : rc ≡ pos 0 = cc in ap is_zero e),
)
  where
    eq_zero : (c : ℤ) → is_zero c ≡ true → c ≡ pos 0
    eq_zero (pos n) h = ap pos (ground arith)
    eq_zero (negsuc n) h = cc
playbook_result-succeeds_iff playbook timeout (timed_out out) w =
    (λ (r, h, s). let e : false ≡ true = succeeded-eq _ r h s in cc, λ (out', err', h). cc)
playbook_result-succeeds_iff playbook timeout (unavailable m) w =
    (λ (r, h, s). cc, λ (out', err', h). cc)

module _ (env : Env) (ansible_dir playbook inventory : String) (vars : Vars) (timeout : ℕ)
    (w : World) where
  -- The run adds one call of the playbook with the variables `vars'`, and nothing else.
  abbrev pub Runs : Vars → World → Type 0
  Runs vars' after =
      after.events
      ≡ w.events ++ ran (playbook_command ansible_dir playbook inventory vars' timeout) ∷ []

  -- A playbook succeeds exactly when its process ended by itself with the return code 0: one that was
  -- killed at the timeout or that could not be started never does.
  pub run-succeeds_iff :
      ((r : PlaybookResult) × ((run env ansible_dir playbook inventory vars timeout w).0 ≡ ok r)
        × (succeeded r ≡ true))
      ↔ ((out err : String) × (env.subprocess w.events
              (playbook_command ansible_dir playbook inventory vars timeout)
            ≡ completed (pos 0) out err))
  unfolding run run_process
  run-succeeds_iff = playbook_result-succeeds_iff playbook timeout _ _

-- An apply for a patch id whose caller tries to set the confirmation variable is refused with a
-- ValueError and starts nothing; any other apply is one call of its playbook in which the
-- confirmation variable is the patch id and every other variable is as the caller gave it.
pub run_apply-confirmed :
    (env : Env) (ansible_dir playbook inventory : String) (vars : Vars)
    (confirm_var_name patch_id : String) (timeout : ℕ) (w : World)
    → let (result, after) =
        run_apply env ansible_dir playbook inventory vars confirm_var_name patch_id timeout w in
      (((v : String) × (get_var confirm_var_name vars ≡ some v))
        × (after ≡ w)
        × ((m : String) × (result ≡ raise (value_error m))))
      ⊎ ((get_var confirm_var_name vars ≡ none)
          × ((vars' : Vars) × Runs env ansible_dir playbook inventory vars timeout w vars' after
              × IsUpdate confirm_var_name patch_id vars vars'))
unfolding run_apply run run_process
run_apply-confirmed env ansible_dir playbook inventory vars confirm_var_name patch_id timeout w =
    elim (Bool-cases (has_var confirm_var_name vars)) [
      | inl set ↦ rw set (inl (has_var-eq confirm_var_name vars set, refl, (_, refl)))
      | inr unset ↦ rw unset (
          inr (
            has_var-ne confirm_var_name vars unset,
            (
              put_var confirm_var_name patch_id vars,
              ap (λ x. x.events) (playbook_result-world playbook timeout _ _),
              put_var-IsUpdate confirm_var_name patch_id vars,
            ),
          ))
    ]
