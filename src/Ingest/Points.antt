-- ===== src/Ingest/Points.antt =====
-- What the vector store holds after an ingestion.
use oracle_patching.Prelude.{
  ℕ, code, String, ◌≡◌, refl, sym, ap, ◌∙◌, subst, inl, inr, Bool, true, false, ◌&&◌, ◌||◌, Option,
  some, List, [], ◌∷◌, map, str_eq, eq_iff, if◌then◌else◌, Bool-cases, length, All, All-imp,
  length-map, All-of_map, ◌==◌, leb,
}
use oracle_patching.Errors.{Result, ok, raise}
use oracle_patching.Retrieval.{Payload}
use oracle_patching.Ingest.{
  KnowledgeObject, PointStruct, Embedder, Call, and_then, Distance, QdrantClient, is_member,
  create_missing, ensure_collection, point, upsert_all, ingest, model_dump,
}

-- Fits a template, in which an `x` stands for a digit of base 16 in lower case.
abbrev pub fits : String → String → Bool
fits String.[] String.[] = true
fits (String.◌∷◌ x t) (String.◌∷◌ c s) =
    (if code x == b'x'
      then (leb b'0' (code c) && leb (code c) b'9') || (leb b'a' (code c) && leb (code c) b'f')
      else code c == code x)
    && fits t s
fits t s = false

-- The text form of a UUID.
abbrev pub is_uuid : String → Bool
is_uuid = fits "xxxxxxxx-xxxx-xxxx-xxxx-xxxxxxxxxxxx"

and_then-ok :
    {Server A B : Type 0} (r : Result A × Server) (k : A → Call Server B) (b : B) (s : Server)
    → and_then r k ≡ (ok b, s)
    → (a : A) × (s' : Server) × (r ≡ (ok a, s')) × (k a s' ≡ (ok b, s))
and_then-ok (ok a, s') k b s h = (a, s', refl, h)
and_then-ok (raise e, s') k b s h = let x = ap (λ p. p.0) h in cc

module _ {Vector : Type 0} where
  -- The payload of the last point of the list with the id, or what was there before.
  abbrev pub latest : String → List (PointStruct Vector) → Option Payload → Option Payload
  latest id [] old = old
  latest id (p ∷ ps) old = latest id ps (if str_eq p.id id then some p.payload else old)

  -- No point has the id.
  abbrev Fresh : String → List (PointStruct Vector) → Type 0
  Fresh id ps = All (λ p. str_eq p.id id ≡ false) ps

  -- No two points have one id.
  abbrev pub Apart : List (PointStruct Vector) → Type 0
  Apart [] = Unit
  Apart (p ∷ ps) = Fresh p.id ps × Apart ps

  latest-Fresh :
      (id : String) (ps : List (PointStruct Vector)) (old : Option Payload)
      → Fresh id ps
      → latest id ps old ≡ old
  latest-Fresh id [] old f = refl
  latest-Fresh id (p ∷ ps) old (other, f) = rw other (latest-Fresh id ps old f)

  latest-Apart :
      (ps : List (PointStruct Vector)) (old : String → Option Payload)
      → Apart ps
      → All (λ p. latest p.id ps (old p.id) ≡ some p.payload) ps
  latest-Apart [] old a = tt
  latest-Apart (p ∷ ps) old (f, a) = (
    rw ((eq_iff p.id p.id).1 refl) (latest-Fresh p.id ps (some p.payload) f),
    latest-Apart ps (λ id. if str_eq p.id id then some p.payload else old id) a,
  )

module _ {Vector Server : Type 0} (client : QdrantClient Vector Server) where
  -- What Qdrant documents of these calls where they return, when `listed s name` tells whether there
  -- is a collection of the name, and `held s name id` is the payload of its point with the id. A
  -- collection that is created exists, and has no more points than before. An upsert of points whose
  -- ids are UUIDs into a collection that exists replaces the payloads under their ids, and is done
  -- when it returns. The laws say nothing of vectors, which a collection with the cosine distance
  -- keeps in normal form, and nothing of calls that raise.
  pub record Laws (listed : Server → String → Bool)
      (held : Server → String → String → Option Payload) : Type 0 where
    pub get-listed :
        (names : List String) (s s' : Server)
        → client.get_collections s ≡ (ok names, s')
        → (name : String) → is_member name names ≡ listed s' name
    pub get-held :
        (names : List String) (s s' : Server)
        → client.get_collections s ≡ (ok names, s')
        → (name id : String) → held s' name id ≡ held s name id
    pub create-listed :
        (name : String) (dimension : ℕ) (distance : Distance) (s s' : Server)
        → client.create_collection name dimension distance s ≡ (ok tt, s')
        → listed s' name ≡ true
    pub create-held :
        (name : String) (dimension : ℕ) (distance : Distance) (s s' : Server)
        → client.create_collection name dimension distance s ≡ (ok tt, s')
        → (id : String) → held s' name id ≡ held s name id
    pub upsert-held :
        (name : String) (ps : List (PointStruct Vector)) (s s' : Server)
        → listed s name ≡ true
        → All (λ p. is_uuid p.id ≡ true) ps
        → client.upsert name ps s ≡ (ok tt, s')
        → (id : String) → held s' name id ≡ latest id ps (held s name id)

  module _ (listed : Server → String → Bool) (held : Server → String → String → Option Payload)
      (laws : Laws listed held) where
    create_missing-Laws :
        (collection : String) (dimension : ℕ) (names : List String) (s s' : Server)
        → is_member collection names ≡ listed s collection
        → create_missing client collection dimension names s ≡ (ok tt, s')
        → (listed s' collection ≡ true)
          × ((id : String) → held s' collection id ≡ held s collection id)
    unfolding create_missing
    create_missing-Laws collection dimension names s s' same h =
        elim (Bool-cases (is_member collection names)) [
          | inl there ↦
              let e : s ≡ s' = ap (λ p. p.1) (rw there at h) in
              (
                subst (λ x. listed x collection ≡ true) e (sym same ∙ there),
                λ id. ap (λ x. held x collection id) (sym e),
              )
          | inr absent ↦
              let made = rw absent at h in
              (
                laws.create-listed collection dimension Distance.cosine s s' made,
                laws.create-held collection dimension Distance.cosine s s' made,
              )
        ]

    ensure_collection-Laws :
        (collection : String) (dimension : ℕ) (s s' : Server)
        → ensure_collection client collection dimension s ≡ (ok tt, s')
        → (listed s' collection ≡ true)
          × ((id : String) → held s' collection id ≡ held s collection id)
    unfolding ensure_collection
    ensure_collection-Laws collection dimension s s' h =
        let (names, s1, got, rest) = and_then-ok (client.get_collections s) _ tt s' h in
        let (there, kept) =
          create_missing-Laws collection dimension names s1 s'
            (laws.get-listed names s s1 got collection) rest in
        (there, λ id. kept id ∙ laws.get-held names s s1 got collection id)

    upsert_all-held :
        (collection : String) (ps : List (PointStruct Vector)) (s s' : Server)
        → listed s collection ≡ true
        → All (λ p. is_uuid p.id ≡ true) ps
        → upsert_all client collection ps s ≡ (ok tt, s')
        → (id : String) → held s' collection id ≡ latest id ps (held s collection id)
    upsert_all-held collection [] s s' there u h id =
        ap (λ x. held x collection id) (sym (ap (λ p. p.1) h))
    upsert_all-held collection (p ∷ ps) s s' there u h id =
        laws.upsert-held collection (p ∷ ps) s s' there u h id

    module _ (uuid5 : String → String) (collection : String) (embedder : Embedder Vector) where
      points_are_uuids :
          ((text : String) → is_uuid (uuid5 text) ≡ true)
          → (objects : List KnowledgeObject)
          → All (λ p. is_uuid p.id ≡ true) (map (point client uuid5 embedder) objects)
      points_are_uuids u [] = tt
      points_are_uuids u (o ∷ objects) = (u o.id, points_are_uuids u objects)

      ingest-held :
          (objects : List KnowledgeObject) (s s' : Server) (count : ℕ)
          → ((text : String) → is_uuid (uuid5 text) ≡ true)
          → ingest client uuid5 collection embedder objects s ≡ (ok count, s')
          → (count ≡ length objects)
            × ((id : String)
                → held s' collection id
                  ≡ latest id (map (point client uuid5 embedder) objects) (held s collection id))
      unfolding ingest
      ingest-held objects s s' count u h =
          let points = map (point client uuid5 embedder) objects in
          let (_, s1, ensured, rest) = and_then-ok _ _ count s' h in
          let (_, s2, written, end) =
            and_then-ok (upsert_all client collection points s1) _ count s' rest in
          let (there, kept) = ensure_collection-Laws collection embedder.dimension s s1 ensured in
          let count_lem : length points ≡ count = let x = ap (λ p. p.0) end in cc in
          (
            sym count_lem ∙ length-map (point client uuid5 embedder) objects,
            λ id.
                ap (λ x. held x collection id) (sym (ap (λ p. p.1) end))
                ∙ upsert_all-held collection points s1 s2 there (points_are_uuids u objects) written
                    id
                ∙ ap (latest id points) (kept id),
          )

      -- If the server keeps the documented laws, the UUIDs have their documented form, those of the
      -- objects differ, and an ingestion returns, then it returns the number of the objects; each
      -- object's payload is what the collection holds under the UUID of the object's id; and what it
      -- holds under any id is what it held before, replaced by the points of the objects.
      pub ingest-stores :
          (objects : List KnowledgeObject) (s s' : Server) (count : ℕ) (id : String)
          → ((text : String) → is_uuid (uuid5 text) ≡ true)
          → Apart (map (point client uuid5 embedder) objects)
          → ingest client uuid5 collection embedder objects s ≡ (ok count, s')
          → (count ≡ length objects)
            × All (λ o. held s' collection (uuid5 o.id) ≡ some (model_dump o)) objects
            × (held s' collection id
                ≡ latest id (map (point client uuid5 embedder) objects) (held s collection id))
      ingest-stores objects s s' count id u apart h =
          let points = map (point client uuid5 embedder) objects in
          let (counted, holds) = ingest-held objects s s' count u h in
          (
            counted,
            All-of_map _ (point client uuid5 embedder) objects (
                All-imp points (λ p found. holds p.id ∙ found)
                  (latest-Apart points (λ x. held s collection x) apart)),
            holds id,
          )
