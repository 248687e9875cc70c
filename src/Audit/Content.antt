-- ===== src/Audit/Content.antt =====
-- The hashed text of an entry tells its fields.
use oracle_patching.Prelude.{String, ◌≡◌, refl, ap, ◌∙◌, ◌⊎◌, inl, inr, some, [], ◌∷◌, ◌++◌}
use oracle_patching.Prelude.Int.{pos}
use oracle_patching.Json.{Json, num, str, obj, field, end, object, dumps, compact}
use oracle_patching.Json.Read.{loads, no_hooks}
use oracle_patching.Json.Distinct.{Distinct, has_key}
use oracle_patching.Json.Sorted.{normalize, loads-sorted, compact-Gaps}
use oracle_patching.Audit.{AuditEntry, Log, canonical, verify_chain}
use oracle_patching.Audit.Append.{passed}
use oracle_patching.Audit.Binding.{content, Collision, replacement_detected}

-- The fields that are hashed are equal, the payloads up to the order of the keys in their objects.
pub record SameFields (e f : AuditEntry) : Type 0 where
  pub seq : e.seq ≡ f.seq
  pub timestamp : e.timestamp ≡ f.timestamp
  pub event_type : e.event_type ≡ f.event_type
  pub payload : normalize e.payload ≡ normalize f.payload
  pub prev_hash : e.prev_hash ≡ f.prev_hash

abbrev hashed_members : AuditEntry → Json
hashed_members e = object (
    ("seq", num (pos e.seq))
    ∷ ("timestamp", str e.timestamp)
    ∷ ("event_type", str e.event_type)
    ∷ ("payload", e.payload)
    ∷ ("prev_hash", str e.prev_hash)
    ∷ [])

abbrev sorted_members : AuditEntry → Json
sorted_members e = obj (
    field "event_type" (str e.event_type) (
      field "payload" (normalize e.payload) (
        field "prev_hash" (str e.prev_hash)
          (field "seq" (num (pos e.seq)) (field "timestamp" (str e.timestamp) end)))))

content-dumps : (e : AuditEntry) → content e ≡ dumps compact (hashed_members e)
unfolding canonical
content-dumps e = refl

normalize-hashed_members : (e : AuditEntry) → normalize (hashed_members e) ≡ sorted_members e
unfolding normalize
normalize-hashed_members e = refl

hashed_members-Distinct : (e : AuditEntry) → Distinct e.payload → Distinct (hashed_members e)
unfolding has_key
hashed_members-Distinct e d = (refl, tt, (refl, tt, (refl, tt, (refl, d, (refl, tt, tt)))))

loads-content :
    (e : AuditEntry) → Distinct e.payload → loads no_hooks (content e) ≡ some (sorted_members e)
loads-content e d =
    ap (loads no_hooks) (content-dumps e)
    ∙ loads-sorted no_hooks compact (hashed_members e) refl compact-Gaps
        (hashed_members-Distinct e d)
    ∙ ap some (normalize-hashed_members e)

SameFields-of_members : (e f : AuditEntry) → sorted_members e ≡ sorted_members f → SameFields e f
SameFields-of_members e f h = record {
  seq = cc;
  timestamp = cc;
  event_type = cc;
  payload = cc;
  prev_hash = cc;
}

pub content-SameFields :
    (e f : AuditEntry)
    → Distinct e.payload
    → Distinct f.payload
    → content e ≡ content f
    → SameFields e f
content-SameFields e f d d' h =
    let one = loads-content e d in let two = loads-content f d' in SameFields-of_members e f cc

-- If `verify_chain` accepts a log, and accepts it again with one entry replaced that is not the last,
-- and the payloads of both have no object with one key twice, then all the hashed fields of the two
-- entries are equal, their payloads up to the order of keys, or two different texts with one digest
-- are at hand.
pub replacement-SameFields :
    (sha256_hex : String → String) (xs : Log) (e e' z : AuditEntry) (zs : Log)
    → Distinct e.payload
    → Distinct e'.payload
    → verify_chain sha256_hex (xs ++ e ∷ z ∷ zs) ≡ passed
    → verify_chain sha256_hex (xs ++ e' ∷ z ∷ zs) ≡ passed
    → SameFields e e' ⊎ Collision sha256_hex
replacement-SameFields sha256_hex xs e e' z zs d d' h h' =
    elim (replacement_detected sha256_hex xs e e' z zs h h') [
      | inl same ↦ inl (content-SameFields e e' d d' same)
      | inr collision ↦ inr collision
    ]
