-- ===== src/Json/Show.antt =====
-- What an f-string shows of a value that was read from JSON.
use oracle_patching.Prelude.{String, ◌<>◌, true, false, List, [], ◌∷◌}
use oracle_patching.Text.{join}
use oracle_patching.Text.Repr.{repr}
use oracle_patching.Text.Decimal.{decimal_ℤ}
use oracle_patching.Json.{
  Json, Items, Fields, null, bool, num, str, arr, obj, nil, cons, end, field,
}

unfoldable mutual
  unfolding repr join decimal_ℤ

  -- repr(value)
  pub json_repr : Json → String
  json_repr null = "None"
  json_repr (bool true) = "True"
  json_repr (bool false) = "False"
  json_repr (num n) = decimal_ℤ n
  json_repr (str s) = repr s
  json_repr (arr xs) = "[" <> join ", " (items_repr xs) <> "]"
  json_repr (obj fs) = "{" <> join ", " (fields_repr fs) <> "}"

  pub items_repr : Items → List String
  items_repr nil = []
  items_repr (cons x xs) = json_repr x ∷ items_repr xs

  pub fields_repr : Fields → List String
  fields_repr end = []
  fields_repr (field k v fs) = (repr k <> ": " <> json_repr v) ∷ fields_repr fs

-- str(value)
unfoldable pub show : Json → String
unfolding json_repr
show (str s) = s
show j = json_repr j
