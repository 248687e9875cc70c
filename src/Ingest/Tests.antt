-- ===== src/Ingest/Tests.antt =====
-- A server that keeps its points in a function, and two knowledge objects.
use oracle_patching.Prelude.{
  ℕ, String, ◌≡◌, refl, sym, ap, ◌∙◌, subst, inl, inr, true, Option, none, some, List, [], ◌∷◌, map,
  str_eq, eq_iff, if◌then◌else◌, All, ◌==◌, Bool-cases,
}
use oracle_patching.Retrieval.{Payload}
use oracle_patching.Prelude.Dict.{Dict, lookup, NodupKeys}
use oracle_patching.Errors.{Result, ok, raise, value_error}
use oracle_patching.Text.{str_len}
use oracle_patching.Dmz.{Storage, transfer}
use oracle_patching.Ingest.{
  model_dump, KnowledgeObject, Embedder, Distance, QdrantClient, is_member, ensure_collection,
  point, ingest, load_knowledge_objects,
}
use oracle_patching.Ingest.Inbox.{load-after_transfer}
use oracle_patching.Ingest.Points.{latest, is_uuid, Laws, Apart, ingest-stores}

record Shelf : Type 0 where
  names : List String
  held : String → String → Option Payload

-- It refuses a collection for vectors of dimension 0.
abbrev shelf_client : QdrantClient String Shelf
shelf_client = record {
  get_collections = λ s. (ok s.names, s);
  create_collection = λ name dimension distance s.
      if dimension == 0
      then (raise (value_error "dimension"), s)
      else (ok tt, record s { names = name ∷ s.names });
  upsert = λ name ps s. (
    ok tt,
    record s { held = λ c id. if str_eq c name then latest id ps (s.held c id) else s.held c id },
  );
}

same_text : (s : String) → str_eq s s ≡ true
same_text s = (eq_iff s s).1 refl

moved :
    {A : Type 0} (P : Shelf → Type 0) (a b : Result A) (s s' : Shelf)
    → P s
    → (let p : Result A × Shelf = (a, s) in p ≡ (b, s'))
    → P s'
moved P a b s s' p h = subst P (ap (λ x. x.1) h) p

got :
    (names : List String) (s s' : Shelf)
    → shelf_client.get_collections s ≡ (ok names, s')
    → names ≡ s'.names
got names s s' h =
    let e : ok s.names ≡ ok names = ap (λ x. x.0) h in
    let e' : s ≡ s' = ap (λ x. x.1) h in
    let e'' : s.names ≡ names = cc in sym e'' ∙ ap (λ x. x.names) e'

made :
    (P : Shelf → Type 0) (name : String) (dimension : ℕ) (distance : Distance) (s s' : Shelf)
    → P (record s { names = name ∷ s.names })
    → shelf_client.create_collection name dimension distance s ≡ (ok tt, s')
    → P s'
made P name dimension distance s s' p h = elim (Bool-cases (dimension == 0)) [
  | inl none_asked ↦
      let e : raise (value_error "dimension") ≡ ok tt = ap (λ x. x.0) (rw none_asked at h) in cc
  | inr other ↦ subst P (ap (λ x. x.1) (rw other at h)) p
]

shelf-Laws : Laws shelf_client (λ s name. is_member name s.names) (λ s. s.held)
shelf-Laws = record {
  get-listed = λ names s s' h name. ap (is_member name) (got names s s' h);
  get-held = λ names s s' h name id. ap (λ x. x.1.held name id) (sym h);
  create-listed = λ name dimension distance s s' h.
      made (λ x. is_member name x.names ≡ true) name dimension distance s s'
        (rw (same_text name) refl) h;
  create-held = λ name dimension distance s s' h id.
      made (λ x. x.held name id ≡ s.held name id) name dimension distance s s' refl h;
  upsert-held = λ name ps s s' there u h id.
      moved (λ x. x.held name id ≡ latest id ps (s.held name id)) (ok tt) (ok tt) _ s'
        (rw (same_text name) refl) h;
}

abbrev object_of : String → KnowledgeObject
object_of id = record {
  id = id;
  title = "Check for conflicts";
  category = "opatch";
  applicable_min_version = none;
  applicable_max_version = none;
  preconditions = [];
  steps = "opatch prereq" ∷ [];
  validation = [];
  rollback = [];
  source = "runbook";
}

abbrev objects : List KnowledgeObject
objects = object_of "conflicts" ∷ object_of "inventory" ∷ []

abbrev bare : Embedder String
bare = record { dimension = 32; embed = λ s. s }

abbrev empty_shelf : Shelf
empty_shelf = record { names = []; held = λ c id. none }

-- Two UUIDs.
abbrev uuid_of : String → String
uuid_of text =
    if str_eq text "conflicts"
    then "0b3f8a52-5d0e-5c1b-9a64-2f1e7c3d4a01"
    else "7c9e1d40-1a2b-5f3c-8d4e-5a6b7c8d9e0f"

uuid_of-is_uuid : (text : String) → is_uuid (uuid_of text) ≡ true
uuid_of-is_uuid text = elim (Bool-cases (str_eq text "conflicts")) [
  | inl e ↦ rw e refl
  | inr e ↦ rw e refl
]

objects-Apart : Apart (map (point shelf_client uuid_of bare) objects)
objects-Apart = ((refl, tt), (tt, tt))

abbrev filled_shelf : Shelf
filled_shelf = (ingest shelf_client uuid_of "kb" bare objects empty_shelf).1

ingested : ingest shelf_client uuid_of "kb" bare objects empty_shelf ≡ (ok 2, filled_shelf)
unfolding ingest ensure_collection
ingested = refl

ingest-stores_example :
    (◌≡◌ {A = ℕ} 2 2)
    × All (λ o. filled_shelf.held "kb" (uuid_of o.id) ≡ some (model_dump o)) objects
    × (filled_shelf.held "kb" "other"
        ≡ latest "other" (map (point shelf_client uuid_of bare) objects) none)
ingest-stores_example =
    ingest-stores shelf_client (λ s name. is_member name s.names) (λ s. s.held) shelf-Laws uuid_of
      "kb" bare objects empty_shelf filled_shelf 2 "other" uuid_of-is_uuid objects-Apart ingested

abbrev texts : Storage String
texts = record { sha256_hex = λ s. s; size = str_len; encode = λ s. s }

abbrev staged : Dict String
staged = ("opatch.yml", "conflicts") ∷ ("asm.yml", "inventory") ∷ []

abbrev old_inbox : Dict String
old_inbox = ("stale.yml", "stale") ∷ ("MANIFEST.json", "{}") ∷ []

abbrev read_object : String → Result KnowledgeObject
read_object text = ok (object_of text)

staged-NodupKeys : NodupKeys staged
unfolding lookup
staged-NodupKeys = (refl, (refl, tt))

old_inbox-NodupKeys : NodupKeys old_inbox
unfolding lookup
old_inbox-NodupKeys = (refl, (refl, tt))

load-after_transfer_example :
    load_knowledge_objects read_object (transfer texts "t" "staging" staged old_inbox "").1
    ≡ load_knowledge_objects read_object staged
load-after_transfer_example =
    load-after_transfer texts "t" "staging" staged old_inbox "" read_object staged-NodupKeys
      old_inbox-NodupKeys
