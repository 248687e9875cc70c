-- ===== src/Dmz/Tests.antt =====
-- A transfer of two objects into an inbox that holds a stale one and a note.
use oracle_patching.Prelude.{String, ◌≡◌, refl, none, some, [], ◌∷◌}
use oracle_patching.Prelude.Dict.{Dict, lookup, NodupKeys}
use oracle_patching.Text.{str_len}
use oracle_patching.Dmz.{Storage, transfer}
use oracle_patching.Errors.{ok}
use oracle_patching.Prelude.Dict.{insert, insert_all}
use oracle_patching.Json.{str, arr, items}
use oracle_patching.Json.Read.{no_hooks}
use oracle_patching.Dmz.{manifest_text, file_json, file_record, unlink_stale, staging_files}
use oracle_patching.Dmz.Read.{read_manifest}
use oracle_patching.Dmz.Mirror.{expected, transfer-mirrors}

abbrev texts : Storage String
texts = record { sha256_hex = λ s. s; size = str_len; encode = λ s. s }

abbrev staged : Dict String
staged = ("opatch.yml", "id: opatch") ∷ ("README.md", "staging") ∷ ("rac.yml", "id: rac") ∷ []

abbrev old_inbox : Dict String
old_inbox = ("stale.yml", "id: stale") ∷ ("notes.txt", "kept") ∷ ("rac.yml", "id: old") ∷ []

staged-NodupKeys : NodupKeys staged
unfolding lookup
staged-NodupKeys = (refl, (refl, (refl, tt)))

transfer-mirrors_example :
    lookup "stale.yml" (transfer texts "t" "staging" staged old_inbox "").1
    ≡ expected texts
        (transfer texts "t" "staging" staged old_inbox "").0
        staged
        old_inbox
        "stale.yml"
transfer-mirrors_example =
    transfer-mirrors texts "t" "staging" staged old_inbox "" "stale.yml" staged-NodupKeys

-- The manifest of a transfer is read back; an inbox to which nothing was transferred has none.
manifest_run :
    read_manifest no_hooks (λ s. s) (transfer texts "t" "staging" staged old_inbox "").1
    ≡ ok (
        some record {
          transferred_at = str "t";
          source = str "staging (simulated one-directional DMZ transfer)";
          files = arr (
              items (
                file_json (file_record texts ("opatch.yml", "id: opatch"))
                ∷ file_json (file_record texts ("rac.yml", "id: rac"))
                ∷ []));
        })
unfolding read_manifest transfer insert insert_all unlink_stale staging_files manifest_text
manifest_run = refl

no_manifest : read_manifest no_hooks (λ s. s) old_inbox ≡ ok none
unfolding read_manifest
no_manifest = refl
