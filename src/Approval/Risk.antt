-- ===== src/Approval/Risk.antt =====
-- The risk level of a report, from what is missing and what is warned of.
use oracle_patching.Prelude.{
  String, ◌≡◌, refl, ◌↔◌, ◌⊎◌, inl, inr, Bool, true, false, not, ◌&&◌, List, [], ◌∷◌, map, arith,
  str_eq, eq_iff, Bool-cases,
}
use oracle_patching.Procedure.{ProcedureDefinition, listed, known_preconditions, set_minus}
use oracle_patching.Plan.{PatchPlan, confirmed}
use oracle_patching.Approval.{missing_of, risk_level, warnings_of, build_report}
use oracle_patching.Approval.Report.{high_risk, standard_risk, unknown_warnings}

-- A name is missing exactly when the procedure requires it and the plan does not confirm it.
listed-missing_of :
    (checked : List (String × Bool)) (required : List String) (x : String)
    → listed x (missing_of checked required) ≡ (listed x required && not (confirmed x checked))
unfolding missing_of listed
listed-missing_of checked [] x = refl
listed-missing_of checked (y ∷ ys) x = ground (arith, eq_iff x y, listed-missing_of checked ys x)

nil_or_listed : (xs : List String) → (xs ≡ []) ⊎ ((x : String) × (listed x xs ≡ true))
unfolding listed
nil_or_listed [] = inl refl
nil_or_listed (x ∷ xs) = inr (x, ground (arith, eq_iff x x))

is_nil : List String → Bool
is_nil [] = true
is_nil (x ∷ xs) = false

eq_nil : (xs : List String) → is_nil xs ≡ true → xs ≡ []
unfolding is_nil
eq_nil [] h = refl
eq_nil (x ∷ xs) h = cc

risk_level-is_high :
    (missing warnings : List String)
    → str_eq (risk_level missing warnings) high_risk ≡ not (is_nil missing)
unfolding risk_level is_nil
risk_level-is_high [] [] = refl
risk_level-is_high [] (w ∷ ws) = refl
risk_level-is_high (m ∷ ms) ws = refl

risk_level-is_standard :
    (missing warnings : List String)
    → str_eq (risk_level missing warnings) standard_risk ≡ (is_nil missing && is_nil warnings)
unfolding risk_level is_nil
risk_level-is_standard [] [] = refl
risk_level-is_standard [] (w ∷ ws) = refl
risk_level-is_standard (m ∷ ms) ws = refl

-- Every required precondition is confirmed by the plan.
abbrev pub AllConfirmed : PatchPlan → ProcedureDefinition → Type 0
AllConfirmed plan procedure =
    (x : String)
    → listed x procedure.required_preconditions ≡ true
    → confirmed x plan.preconditions_checked ≡ true

-- Some required precondition is not confirmed by the plan.
abbrev pub SomeMissing : PatchPlan → ProcedureDefinition → Type 0
SomeMissing plan procedure =
    (x : String) × (listed x procedure.required_preconditions ≡ true)
    × (confirmed x plan.preconditions_checked ≡ false)

missing_of-nil_iff :
    (plan : PatchPlan) (procedure : ProcedureDefinition)
    → (missing_of plan.preconditions_checked procedure.required_preconditions ≡ [])
      ↔ AllConfirmed plan procedure
missing_of-nil_iff plan procedure = (
  λ h x m.
      let none_missing : listed x
            (missing_of plan.preconditions_checked procedure.required_preconditions)
          ≡ false =
        rw h (unfold listed in refl) in
      ground
        (arith, listed-missing_of plan.preconditions_checked procedure.required_preconditions x),
  λ all.
      elim (nil_or_listed
        (missing_of plan.preconditions_checked procedure.required_preconditions)) [
          | inl empty ↦ empty
          | inr (x, m) ↦ absurd (
              ground (
                arith,
                all x,
                listed-missing_of plan.preconditions_checked procedure.required_preconditions x,
              ))
        ],
)

is_nil-eq : (xs : List String) → xs ≡ [] → is_nil xs ≡ true
unfolding is_nil
is_nil-eq [] h = refl
is_nil-eq (x ∷ xs) h = cc

missing-cases :
    (plan : PatchPlan) (procedure : ProcedureDefinition)
    → AllConfirmed plan procedure ⊎ SomeMissing plan procedure
missing-cases plan procedure =
    elim (nil_or_listed (missing_of plan.preconditions_checked procedure.required_preconditions)) [
      | inl empty ↦ inl ((missing_of-nil_iff plan procedure).0 empty)
      | inr (x, m) ↦ inr (
          let eq =
            listed-missing_of plan.preconditions_checked procedure.required_preconditions x in
          (x, ground (arith, eq), ground (arith, eq)))
    ]

not_both :
    (plan : PatchPlan) (procedure : ProcedureDefinition)
    → AllConfirmed plan procedure
    → SomeMissing plan procedure
    → ⊥
not_both plan procedure all (x, required, unconfirmed) = ground (arith, all x required)

is_nil-warnings_of :
    (grid : Bool) (checked : List (String × Bool))
    → is_nil (warnings_of grid checked)
      ≡ (not grid && is_nil (set_minus (map (λ (k, b). k) checked) known_preconditions))
unfolding warnings_of unknown_warnings is_nil
is_nil-warnings_of true checked = refl
is_nil-warnings_of false checked =
    is_nil-unknown (set_minus (map (λ (k, b). k) checked) known_preconditions)
  where
    is_nil-unknown : (xs : List String) → is_nil (unknown_warnings xs) ≡ is_nil xs
    is_nil-unknown [] = refl
    is_nil-unknown (x ∷ xs) = refl

module _ (plan : PatchPlan) (procedure : ProcedureDefinition) (summary : String) where
  abbrev missing : List String
  missing = missing_of plan.preconditions_checked procedure.required_preconditions

  abbrev warnings : List String
  warnings = warnings_of procedure.requires_grid_infra plan.preconditions_checked

  is_nil-missing : (is_nil missing ≡ true) ↔ AllConfirmed plan procedure
  is_nil-missing = (
    λ h. (missing_of-nil_iff plan procedure).0 (eq_nil missing h),
    λ all. is_nil-eq missing ((missing_of-nil_iff plan procedure).1 all),
  )

  some_missing : is_nil missing ≡ false → SomeMissing plan procedure
  some_missing h = elim (missing-cases plan procedure) [
    | inl all ↦ absurd (ground (arith, is_nil-missing.1 all))
    | inr m ↦ m
  ]

  not_nil : SomeMissing plan procedure → is_nil missing ≡ false
  not_nil m = elim (Bool-cases (is_nil missing)) [
    | inl h ↦ absurd (not_both plan procedure (is_nil-missing.0 h) m)
    | inr h ↦ h
  ]

  -- The report is of high risk exactly when some required precondition is not confirmed by the plan,
  -- whatever else it warns of.
  pub build_report-high_iff :
      ((build_report plan procedure summary).risk_level ≡ high_risk) ↔ SomeMissing plan procedure
  unfolding build_report
  build_report-high_iff = (
    λ h. some_missing (
        ground (
          arith,
          risk_level-is_high missing warnings,
          (eq_iff (risk_level missing warnings) high_risk).1 h,
        )),
    λ m.
        (eq_iff (risk_level missing warnings) high_risk).0
          (ground (arith, risk_level-is_high missing warnings, not_nil m)),
  )

  -- The report is of standard risk exactly when every required precondition is confirmed by the plan,
  -- the procedure needs no grid infrastructure and the plan names known preconditions only.
  pub build_report-standard_iff :
      ((build_report plan procedure summary).risk_level ≡ standard_risk) ↔ (
        AllConfirmed plan procedure
        × (procedure.requires_grid_infra ≡ false)
        × (set_minus (map (λ (k, b). k) plan.preconditions_checked) known_preconditions ≡ []))
  unfolding build_report
  build_report-standard_iff = (
    λ h.
        let eq = risk_level-is_standard missing warnings in
        let standard = (eq_iff (risk_level missing warnings) standard_risk).1 h in
        let eq' = is_nil-warnings_of procedure.requires_grid_infra plan.preconditions_checked in
        (
          is_nil-missing.0 (ground (arith, eq, standard)),
          ground (arith, eq, standard, eq'),
          eq_nil _ (ground (arith, eq, standard, eq')),
        ),
    λ (all, grid, known). (eq_iff (risk_level missing warnings) standard_risk).0 (
        ground (
          arith,
          risk_level-is_standard missing warnings,
          is_nil-missing.1 all,
          is_nil-warnings_of procedure.requires_grid_infra plan.preconditions_checked,
          is_nil-eq (set_minus (map (λ (k, b). k) plan.preconditions_checked) known_preconditions)
              known,
        )),
  )
