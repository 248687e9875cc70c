-- ===== src/Ingest.antt =====
-- Patching_Agentic/rag/ingestion/ingest.py and schema.py: the knowledge objects of the inbox, and the
-- points that they become in the vector store.
pub mod Inbox
pub mod Points
mod Tests
use oracle_patching.Prelude.{
  ℕ, ◌+◌, ◌-◌, ◌/◌, String, ap, Bool, false, ◌||◌, Option, none, some, List, [], ◌∷◌, ◌++◌, map,
  str_eq, if◌then◌else◌, length,
}
use oracle_patching.Text.{join}
use oracle_patching.Json.{Json, null, str, arr, items}
use oracle_patching.Errors.{Result, ok, raise, ◌>>=◌}
use oracle_patching.Prelude.Dict.{Dict}
use oracle_patching.Retrieval.{Payload}
use oracle_patching.Dmz.{staging_files}

pub record KnowledgeObject : Type 0 where
  pub id : String
  pub title : String
  pub category : String
  pub applicable_min_version : Option String
  pub applicable_max_version : Option String
  pub preconditions : List String
  pub steps : List String
  pub validation : List String
  pub rollback : List String
  pub source : String

unfoldable pub embedding_text : KnowledgeObject → String
unfolding join
embedding_text o =
    join "\n"
      (o.title ∷ o.category ∷ [] ++ (o.preconditions ++ o.steps ++ o.validation ++ o.rollback))

abbrev optional : Option String → Json
optional none = null
optional (some s) = str s

abbrev strs : List String → Json
strs l = arr (items (map str l))

-- obj.model_dump()
abbrev pub model_dump : KnowledgeObject → Payload
model_dump o = record {
  body =
      ("id", str o.id)
      ∷ ("title", str o.title)
      ∷ ("category", str o.category)
      ∷ ("applicable_min_version", optional o.applicable_min_version)
      ∷ ("applicable_max_version", optional o.applicable_max_version)
      ∷ ("preconditions", strs o.preconditions)
      ∷ ("steps", strs o.steps)
      ∷ ("validation", strs o.validation)
      ∷ ("rollback", strs o.rollback)
      ∷ ("source", str o.source)
      ∷ [];
  applicable_min_version = o.applicable_min_version;
  applicable_max_version = o.applicable_max_version;
}

-- `read` is what `yaml.safe_load` and `model_validate` make of the content of a file.
module _ {Bytes : Type 0} (read : Bytes → Result KnowledgeObject) where
  unfoldable pub load_files : Dict Bytes → Result (List KnowledgeObject)
  load_files [] = ok []
  load_files ((name, bytes) ∷ files) = do
    first ← read bytes
    rest ← load_files files
    ok (first ∷ rest)

  -- load_knowledge_objects
  unfoldable pub load_knowledge_objects : Dict Bytes → Result (List KnowledgeObject)
  unfolding staging_files load_files
  load_knowledge_objects source_dir = load_files (staging_files source_dir)

pub record PointStruct (Vector : Type 0) : Type 0 where
  pub id : String
  pub vector : Vector
  pub payload : Payload

pub record Embedder (Vector : Type 0) : Type 0 where
  pub dimension : ℕ
  pub embed : String → Vector

-- The distances of vectors that the source names.
pub data Distance : Type 0 where
  cosine : Distance

-- A call may raise, and may have changed the state of the server when it does.
abbrev pub Call : Type 0 → Type 0 → Type 0
Call Server A = Server → Result A × Server

abbrev pub and_then :
    {Server A B : Type 0} → Result A × Server → (A → Call Server B) → Result B × Server
and_then (ok a, s) k = k a s
and_then (raise e, s) k = (raise e, s)

-- The calls of the Qdrant client: the names of the collections, the creation of a collection for
-- vectors of a dimension with a distance, and the writing of points.
pub record QdrantClient (Vector Server : Type 0) : Type 0 where
  pub get_collections : Call Server (List String)
  pub create_collection : String → ℕ → Distance → Call Server (Unit {0})
  pub upsert : String → List (PointStruct Vector) → Call Server (Unit {0})

abbrev pub is_member : String → List String → Bool
is_member name [] = false
is_member name (x ∷ xs) = str_eq x name || is_member name xs

module _ {Vector Server : Type 0} (client : QdrantClient Vector Server) where
  unfoldable pub create_missing : String → ℕ → List String → Call Server (Unit {0})
  create_missing collection dimension existing s =
      if is_member collection existing
      then (ok tt, s)
      else client.create_collection collection dimension cosine s

  unfoldable pub ensure_collection : String → ℕ → Call Server (Unit {0})
  unfolding create_missing
  ensure_collection collection dimension s =
      and_then (client.get_collections s) (create_missing collection dimension)

  abbrev pub upsert_all : String → List (PointStruct Vector) → Call Server (Unit {0})
  upsert_all collection [] s = (ok tt, s)
  upsert_all collection (p ∷ ps) s = client.upsert collection (p ∷ ps) s

  -- `uuid5` is the UUID5 of a text in the module's namespace, in text form.
  module _ (uuid5 : String → String) where
    abbrev pub point : Embedder Vector → KnowledgeObject → PointStruct Vector
    point embedder o = record {
      id = uuid5 o.id;
      vector = embedder.embed (embedding_text o);
      payload = model_dump o;
    }

    unfoldable pub ingest : String → Embedder Vector → List KnowledgeObject → Call Server ℕ
    unfolding ensure_collection embedding_text
    ingest collection embedder objects s =
        let points = map (point embedder) objects in
        and_then (ensure_collection collection embedder.dimension s)
          λ _ s1. and_then (upsert_all collection points s1) λ _ s2. (ok (length points), s2)
