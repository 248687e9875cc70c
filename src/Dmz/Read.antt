-- ===== src/Dmz/Read.antt =====
-- Patching_Agentic/rag/ingestion/dmz_transfer.py: read_manifest, and what the file does when it is run.
use oracle_patching.Prelude.{String, ◌<>◌, Option, none, some, List, [], ◌∷◌, map, length}
use oracle_patching.Prelude.Dict.{Dict, lookup}
use oracle_patching.Errors.{Result, ok, raise, ◌>>=◌, ◌>>◌, value_error, type_error}
use oracle_patching.Text.{str_take}
use oracle_patching.Text.Decimal.{decimal}
use oracle_patching.Json.{Json, obj}
use oracle_patching.Json.Scan.{Hooks}
use oracle_patching.Json.Read.{loads}
use oracle_patching.Item.{only, argument}
use oracle_patching.Dmz.{manifest_filename, TransferManifest, Storage, transfer}

-- A TransferManifest as it is read: the fields have no fixed types.
pub record LoadedManifest : Type 0 where
  pub transferred_at : Json
  pub source : Json
  pub files : Json

-- TransferManifest(**raw), where `none` is the JSONDecodeError.
unfoldable pub manifest_of : Hooks → String → Option Json → Result LoadedManifest
unfolding only argument
manifest_of h text none = raise (value_error (h.message text))
manifest_of h text (some (obj fs)) = do
  only ("transferred_at" ∷ "source" ∷ "files" ∷ []) fs
  transferred_at ← argument "transferred_at" fs
  source ← argument "source" fs
  files ← argument "files" fs
  ok (record { transferred_at = transferred_at; source = source; files = files })
manifest_of h text (some j) = raise (type_error "**")

-- The manifest of the inbox, if a transfer has run; `decode` is what `read_text` makes of a file.
unfoldable pub read_manifest {ℓ} :
    {Bytes : Type ℓ} → Hooks → (Bytes → String) → Dict Bytes → Result (Option LoadedManifest)
unfolding manifest_of loads lookup
read_manifest h decode inbox = elim (lookup manifest_filename inbox) [
  | none ↦ ok none
  | some bytes ↦
      let text = decode bytes in
      manifest_of h text (loads h text) >>= λ manifest. ok (some manifest)
]

unfoldable pub transfer_lines : TransferManifest → List String
unfolding str_take
transfer_lines m =
    ("Transferred " <> decimal (length m.files) <> " file(s) at " <> m.transferred_at)
    ∷ map
        (λ f.
          "  - "
          <> f.name
          <> " ("
          <> decimal f.size_bytes
          <> " bytes, sha256 "
          <> str_take 12 f.sha256
          <> "...)")
        m.files

-- What the script prints, and the inbox and the log that it leaves.
unfoldable pub transfer_script :
    {Bytes : Type 0}
    → Storage Bytes
    → String
    → String
    → Dict Bytes
    → Dict Bytes
    → String
    → List String × Dict Bytes × String
unfolding transfer transfer_lines
transfer_script storage now staging_dir staging inbox log =
    let (manifest, inbox', log') = transfer storage now staging_dir staging inbox log in
    (transfer_lines manifest, inbox', log')
