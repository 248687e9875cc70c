-- ===== src/Errors.antt =====
-- The exceptions of the program, and results that may be one of them.
use oracle_patching.Prelude.{String, ◌≡◌, refl, Bool, true, false}
use oracle_patching.Text.Repr.{repr}

pub data Exc : Type 0 where
  executor_halted unknown_procedure value_error key_error file_not_found os_error : String → Exc
  validation_error escalation scan_failed eof_error : String → Exc
  attribute_error type_error foreign_key_error index_error timeout_expired : String → Exc
  -- A KeyError for a key that is no text, with its repr; an APIStatusError of the model server.
  missing_key api_status_error : String → Exc

-- str(exc): a KeyError, which UnknownProcedureError extends, shows the repr of its argument.
unfoldable pub str_exc : Exc → String
str_exc (executor_halted m) = m
str_exc (unknown_procedure m) = repr m
str_exc (value_error m) = m
str_exc (key_error m) = repr m
str_exc (file_not_found m) = m
str_exc (os_error m) = m
str_exc (validation_error m) = m
str_exc (escalation m) = m
str_exc (scan_failed m) = m
str_exc (eof_error m) = m
str_exc (attribute_error m) = m
str_exc (type_error m) = m
str_exc (foreign_key_error m) = m
str_exc (index_error m) = m
str_exc (timeout_expired m) = m
str_exc (missing_key m) = m
str_exc (api_status_error m) = m

pub data Result {ℓ} (A : Type ℓ) : Type ℓ where
  ok : A → Result A
  raise : Exc → Result A

-- `if not test: raise e`
abbrev pub require : Bool → Exc → Result (Unit {0})
require test e = elim test [ true ↦ ok tt | false ↦ raise e ]

module _ {ℓ κ} {A : Type ℓ} {B : Type κ} where
  infixl 5 ◌>>=◌ ◌>>◌
  abbrev pub ◌>>=◌ : Result A → (A → Result B) → Result B
  ok value >>= rest = rest value
  raise e >>= rest = raise e

  abbrev pub ◌>>◌ : Result A → Result B → Result B
  first >> second = first >>= λ _. second

  -- A chain that returned: its first part returned, and so did the rest on that value.
  pub returned-parts :
      {b : B} (first : Result A) (rest : A → Result B)
      → (first >>= rest) ≡ ok b
      → (value : A) × (first ≡ ok value) × (rest value ≡ ok b)
  returned-parts (ok value) rest h = (value, refl, h)
  returned-parts (raise e) rest h = cc
