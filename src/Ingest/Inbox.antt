-- ===== src/Ingest/Inbox.antt =====
-- What is ingested from the inbox is what was staged.
use oracle_patching.Prelude.{String, ◌≡◌, refl, sym, ◌∙◌, arith, eq_iff}
use oracle_patching.Prelude.Dict.{
  Dict, lookup, NodupKeys, NodupKeys-filter_keys, NodupKeys-insert, NodupKeys-insert_all,
}
use oracle_patching.Prelude.SortedDict.{Sorted, Sorted-sort_by, Sorted-ext}
use oracle_patching.Errors.{Result}
use oracle_patching.Dmz.{Storage, manifest_filename, is_yml, staging_files, unlink_stale, transfer}
use oracle_patching.Dmz.Mirror.{manifest-is_yml, transfer-mirrors, lookup-staging_files}
use oracle_patching.Ingest.{KnowledgeObject, load_knowledge_objects}

module _ {Bytes : Type 0} (storage : Storage Bytes) (now staging_dir : String)
    (staging inbox : Dict Bytes) (log : String) where
  abbrev landed : Dict Bytes
  landed = (transfer storage now staging_dir staging inbox log).1

  NodupKeys-landed : NodupKeys staging → NodupKeys inbox → NodupKeys landed
  unfolding transfer unlink_stale
  NodupKeys-landed u v =
      NodupKeys-insert manifest_filename _ _
        (NodupKeys-insert_all (staging_files staging) _ (NodupKeys-filter_keys _ inbox v))

  landed-agrees :
      (name : String)
      → NodupKeys staging
      → NodupKeys inbox
      → lookup name (staging_files landed) ≡ lookup name (staging_files staging)
  landed-agrees name u v =
      lookup-staging_files storage landed name (NodupKeys-landed u v)
      ∙ ground (
        arith,
        transfer-mirrors storage now staging_dir staging inbox log name u,
        eq_iff manifest_filename name,
        manifest-is_yml,
      )
      ∙ sym (lookup-staging_files storage staging name u)

  Sorted-staging_files : (d : Dict Bytes) → NodupKeys d → Sorted (staging_files d)
  unfolding staging_files
  Sorted-staging_files d u = Sorted-sort_by _ (NodupKeys-filter_keys is_yml d u)

  same_files : NodupKeys staging → NodupKeys inbox → staging_files landed ≡ staging_files staging
  same_files u v =
      Sorted-ext _ _ (Sorted-staging_files landed (NodupKeys-landed u v))
        (Sorted-staging_files staging u) (λ name. landed-agrees name u v)

  -- If no two staged files have one name, and no two files of the inbox, then after a transfer the
  -- knowledge objects that are loaded from the inbox are, in order, those of the staging folder, or
  -- the loading fails as it fails on the staging folder.
  pub load-after_transfer :
      (read : Bytes → Result KnowledgeObject)
      → NodupKeys staging
      → NodupKeys inbox
      → load_knowledge_objects read (transfer storage now staging_dir staging inbox log).1
        ≡ load_knowledge_objects read staging
  unfolding load_knowledge_objects
  load-after_transfer read u v = rw (same_files u v) refl
