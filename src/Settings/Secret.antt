-- ===== src/Settings/Secret.antt =====
-- Where the password and the folder of the playbooks come from.
use oracle_patching.Prelude.{
  String, ◌≡◌, refl, subst, inl, inr, true, false, none, List, [], ◌∷◌, str_eq, eq_iff, Bool-cases,
}
use oracle_patching.Text.{path_join}
use oracle_patching.Errors.{Result, ok, raise, returned-parts, ◌>>=◌}
use oracle_patching.Settings.{
  Yaml, Members, mapping, end, field, member, System, Settings, PostgresSettings, is_name, only,
  argument, item, path_item, postgres_settings, qdrant_settings, llm_settings, password_of,
  load_settings,
}

only-absent :
    (names : List String) (k : String) (fs : Members)
    → only names fs ≡ ok tt
    → is_name k names ≡ false
    → member k fs ≡ none
unfolding only member
only-absent names k end h other = refl
only-absent names k (field j v fs) h other = elim (Bool-cases (is_name j names)) [
  | inr unknown ↦ let e = rw unknown at h in cc
  | inl known ↦ elim (Bool-cases (str_eq j k)) [
    | inl same ↦
        let e : is_name k names ≡ true =
          subst (λ x. is_name x names ≡ true) ((eq_iff j k).0 same) known in
        cc
    | inr apart ↦ rw apart (only-absent names k fs (rw known at h) other)
  ]
]

-- The mapping holds no password.
pub record HasNoPassword (j : Yaml) : Type 0 where
  pub members : Members
  pub is_mapping : j ≡ mapping members
  pub absent : member "password" members ≡ none

-- What holds of a value, if one is returned.
abbrev Returns : {A : Type 0} → (A → Type 0) → Result A → Type 0
Returns P (ok a) = P a
Returns P (raise e) = Unit

Returns-bind :
    {A B : Type 0} (P : B → Type 0) (first : Result A) (rest : A → Result B)
    → ((a : A) → first ≡ ok a → Returns P (rest a))
    → Returns P (first >>= rest)
Returns-bind P (ok a) rest f = f a refl
Returns-bind P (raise e) rest f = tt

Returns-ok : {A : Type 0} (P : A → Type 0) (r : Result A) (a : A) → Returns P r → r ≡ ok a → P a
Returns-ok P r a p h = subst (Returns P) h p

abbrev FromEnvironment : String → Yaml → PostgresSettings → Type 0
FromEnvironment password j p = (p.password ≡ password) × HasNoPassword j

postgres_settings-Returns :
    (password : String) (j : Yaml)
    → Returns (FromEnvironment password j) (postgres_settings password j)
unfolding postgres_settings
postgres_settings-Returns password (mapping fs) =
    let P : PostgresSettings → Type 0 = FromEnvironment password (mapping fs) in
    Returns-bind P (only ("host" ∷ "port" ∷ "db" ∷ "user" ∷ []) fs) _ λ u allowed.
      Returns-bind P (argument "host" fs) _ λ host _.
        Returns-bind P (argument "port" fs) _ λ port _. Returns-bind P (argument "db" fs) _ λ db _.
          Returns-bind P (argument "user" fs) _ λ user _. (
            refl,
            record {
              members = fs;
              is_mapping = refl;
              absent =
                  only-absent ("host" ∷ "port" ∷ "db" ∷ "user" ∷ []) "password" fs allowed refl;
            },
          )
postgres_settings-Returns password j = tt

module _ (system : System) (scaffold_root : String) (raw : Yaml) where
  abbrev Configured : Settings → Type 0
  Configured s =
      (s.postgres.password ≡ password_of system)
      × ((j : Yaml) × (item "postgres" raw ≡ ok j) × HasNoPassword j)
      × (s.ansible_dir ≡ path_join s.base_repo_path "ansible")

  load_settings-Returns : Returns Configured (load_settings system scaffold_root raw)
  unfolding load_settings
  load_settings-Returns = Returns-bind Configured (path_item "base_repo_path" raw) _ λ base _.
      Returns-bind Configured (item "qdrant" raw >>= qdrant_settings) _ λ qdrant _.
        Returns-bind Configured (item "postgres" raw >>= postgres_settings (password_of system)) _
          λ postgres read. Returns-bind Configured (item "llm" raw >>= llm_settings) _ λ llm _.
            Returns-bind Configured (item "audit" raw >>= path_item "log_path") _ λ log_path _.
              Returns-bind Configured (item "registry" raw >>= path_item "procedures_dir") _
                λ procedures _.
                  Returns-bind Configured (item "subprocess_timeout_seconds" raw) _ λ subprocess _.
                    Returns-bind Configured (item "preflight_timeout_seconds" raw) _ λ preflight _.
                      Returns-bind Configured (item "preflight_vm_timeout_seconds" raw) _ λ vm _.
                        let (j, found, returned) = returned-parts (item "postgres" raw) _ read in
                        let (same, none_stored) =
                          Returns-ok (FromEnvironment (password_of system) j) _ postgres
                            (postgres_settings-Returns (password_of system) j) returned in
                        (same, (j, found, none_stored), refl)

  -- If `load_settings` returns settings, then the password is the one in the environment, or empty
  -- where there is none, the file holds no password beside the other values for PostgreSQL, and the
  -- folder of the playbooks is the folder `ansible` of the base repository.
  pub load_settings-Secret :
      (s : Settings)
      → load_settings system scaffold_root raw ≡ ok s
      → (s.postgres.password ≡ password_of system)
        × ((j : Yaml) × (item "postgres" raw ≡ ok j) × HasNoPassword j)
        × (s.ansible_dir ≡ path_join s.base_repo_path "ansible")
  load_settings-Secret s h =
      Returns-ok Configured (load_settings system scaffold_root raw) s load_settings-Returns h
