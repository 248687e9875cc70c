-- ===== src/Dmz.antt =====
-- Patching_Agentic/rag/ingestion/dmz_transfer.py: the one-way copy of the staging folder into the
-- inbox. A folder is a dict from file names to contents.
pub mod Mirror
pub mod Read
mod Tests
use oracle_patching.Prelude.{
  ℕ, ◌-◌, ◌*◌, ◌/◌, ◌<◌, code, String, ◌<>◌, ap, Bool, true, not, ◌||◌, List, [], ◌∷◌, map, length,
}
use oracle_patching.Prelude.Dict.{Dict, lookup, has, insert, insert_all, filter_keys, key_of}
use oracle_patching.Prelude.Sort.{sort_by}
use oracle_patching.Text.{has_suffix}
use oracle_patching.Prelude.Int.{pos}
use oracle_patching.Json.{Json, num, str, arr, items, object, dumps, plain}
use oracle_patching.Json.Indent.{dumps_indented}

abbrev pub manifest_filename : String
manifest_filename = "MANIFEST.json"

-- One record of `files`.
pub record FileRecord : Type 0 where
  pub name : String
  pub sha256 : String
  pub size_bytes : ℕ

pub record TransferManifest : Type 0 where
  pub transferred_at : String
  pub source : String
  pub files : List FileRecord

-- `*.yml`
unfoldable pub is_yml : String → Bool
unfolding has_suffix
is_yml name = has_suffix ".yml" name

abbrev pub file_json : FileRecord → Json
file_json f =
    object (
      ("name", str f.name) ∷ ("sha256", str f.sha256) ∷ ("size_bytes", num (pos f.size_bytes)) ∷ [])

-- The text of the manifest in the inbox.
unfoldable pub manifest_text : TransferManifest → String
unfolding dumps_indented
manifest_text m = dumps_indented true 0 (
    object (
      ("transferred_at", str m.transferred_at)
      ∷ ("source", str m.source)
      ∷ ("files", arr (items (map file_json m.files)))
      ∷ []))

-- The line that a transfer adds to the log.
unfoldable pub log_line : TransferManifest → String
unfolding dumps
log_line m =
    dumps plain (
      object (
        ("transferred_at", str m.transferred_at)
        ∷ ("file_count", num (pos (length m.files)))
        ∷ ("file_names", arr (items (map (λ f. str f.name) m.files)))
        ∷ []))
    <> "\n"

-- Contents are bytes; `sha256_hex` and `size` are of them, and `encode` is what `write_text` stores.
pub record Storage (Bytes : Type 0) : Type 0 where
  pub sha256_hex : Bytes → String
  pub size : Bytes → ℕ
  pub encode : String → Bytes

module _ {Bytes : Type 0} where
  -- sorted(staging_dir.glob("*.yml"))
  unfoldable pub staging_files : Dict Bytes → Dict Bytes
  unfolding filter_keys sort_by is_yml
  staging_files staging = sort_by key_of (filter_keys is_yml staging)

  -- The loop that unlinks what is no longer staged.
  unfoldable pub unlink_stale : Dict Bytes → Dict Bytes → Dict Bytes
  unfolding filter_keys has is_yml
  unlink_stale files inbox = filter_keys (λ name. not (is_yml name) || has name files) inbox

module _ {Bytes : Type 0} (storage : Storage Bytes) where
  abbrev pub file_record : String × Bytes → FileRecord
  file_record (name, bytes) = record {
    name = name;
    sha256 = storage.sha256_hex bytes;
    size_bytes = storage.size bytes;
  }

  -- The manifest, the inbox and the log after a transfer.
  unfoldable pub transfer :
      String → String → Dict Bytes → Dict Bytes → String → TransferManifest × Dict Bytes × String
  transfer now staging_dir staging inbox log =
      let files = staging_files staging in
      let manifest : TransferManifest = record {
        transferred_at = now;
        source = staging_dir <> " (simulated one-directional DMZ transfer)";
        files = map file_record files;
      } in
      (
        manifest,
        insert manifest_filename (storage.encode (manifest_text manifest))
            (insert_all files (unlink_stale files inbox)),
        log <> log_line manifest,
      )
