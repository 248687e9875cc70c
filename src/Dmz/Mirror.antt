-- ===== src/Dmz/Mirror.antt =====
-- After a transfer the inbox mirrors the staging folder, and the manifest describes it.
use oracle_patching.Prelude.{
  String, ◌≡◌, refl, ap, ◌∙◌, inl, inr, true, false, not, ◌||◌, Option, none, some, List, [], ◌∷◌,
  map, arith, str_eq, eq_iff, if◌then◌else◌, Bool-cases, All,
}
use oracle_patching.Prelude.Dict.{
  Dict, lookup, has, insert_all, filter_keys, NodupKeys, or_else, lookup-insert, lookup-insert_all,
  lookup-filter_keys, lookup-sort_by, has-lookup, lookup-has, NodupKeys-filter_keys,
  NodupKeys-sort_by, Found, All-Found,
}
use oracle_patching.Dmz.{
  Storage, TransferManifest, file_record, manifest_filename, is_yml, staging_files, unlink_stale,
  manifest_text, transfer,
}

All-map :
    {A B : Type 0} (P : A → Type 0) (Q : B → Type 0) (f : A → B) (xs : List A)
    → ((x : A) → P x → Q (f x))
    → All P xs
    → All Q (map f xs)
All-map P Q f [] k h = tt
All-map P Q f (x ∷ xs) k (p, h) = (k x p, All-map P Q f xs k h)

pub manifest-is_yml : is_yml manifest_filename ≡ false
unfolding is_yml
manifest-is_yml = refl

module _ {Bytes : Type 0} (storage : Storage Bytes) where
  pub lookup-staging_files :
      (staging : Dict Bytes) (name : String)
      → NodupKeys staging
      → lookup name (staging_files staging) ≡ (if is_yml name then lookup name staging else none)
  unfolding staging_files
  lookup-staging_files staging name u =
      lookup-sort_by name (filter_keys is_yml staging) (NodupKeys-filter_keys is_yml staging u)
      ∙ lookup-filter_keys is_yml name staging

  NodupKeys-staging_files :
      (staging : Dict Bytes) → NodupKeys staging → NodupKeys (staging_files staging)
  unfolding staging_files
  NodupKeys-staging_files staging u = NodupKeys-sort_by _ (NodupKeys-filter_keys is_yml staging u)

  lookup-unlink_stale :
      (files inbox : Dict Bytes) (name : String)
      → lookup name (unlink_stale files inbox)
        ≡ (if not (is_yml name) || has name files then lookup name inbox else none)
  unfolding unlink_stale
  lookup-unlink_stale files inbox name = lookup-filter_keys _ name inbox

  -- The copies, over what was left in the inbox.
  mirrored :
      (files inbox : Dict Bytes) (name : String)
      → NodupKeys files
      → is_yml name ≡ true
      → lookup name (insert_all files (unlink_stale files inbox)) ≡ lookup name files
  mirrored files inbox name u y =
      lookup-insert_all name files _ u
      ∙ ap (or_else (lookup name files)) (lookup-unlink_stale files inbox name)
      ∙ ground (arith, has-lookup name files, lookup-has name files)

  -- The folder after a transfer: the name of each staged procedure object leads to what is staged,
  -- the manifest to its text, and every other name to what was there.
  abbrev pub expected : TransferManifest → Dict Bytes → Dict Bytes → String → Option Bytes
  expected manifest staging inbox name =
      if str_eq manifest_filename name
      then some (storage.encode (manifest_text manifest))
      else if is_yml name
      then lookup name staging
      else lookup name inbox

  module _ (now staging_dir : String) (staging inbox : Dict Bytes) (log : String) where
    abbrev files : Dict Bytes
    files = staging_files staging

    copied :
        (name : String)
        → NodupKeys staging
        → lookup name (insert_all files (unlink_stale files inbox))
          ≡ (if is_yml name then lookup name staging else lookup name inbox)
    copied name u = elim (Bool-cases (is_yml name)) [
      | inl y ↦ rw y (
          mirrored files inbox name (NodupKeys-staging_files staging u) y
          ∙ lookup-staging_files staging name u
          ∙ rw y refl)
      | inr n ↦
          let unstaged : lookup name files ≡ none =
            lookup-staging_files staging name u ∙ rw n refl in
          let untouched : lookup name (unlink_stale files inbox) ≡ lookup name inbox =
            lookup-unlink_stale files inbox name ∙ rw n refl in
          rw n (
            lookup-insert_all name files _ (NodupKeys-staging_files staging u)
            ∙ rw (unstaged, untouched) refl)
    ]

    -- If no two staged files have one name, then after a transfer each name of the form `*.yml` leads
    -- to what is staged under it, if anything, and to nothing otherwise, whatever the inbox held; the
    -- name of the manifest leads to its text, and every other name to what the inbox held.
    pub transfer-mirrors :
        (name : String)
        → NodupKeys staging
        → lookup name (transfer storage now staging_dir staging inbox log).1
          ≡ expected (transfer storage now staging_dir staging inbox log).0 staging inbox name
    unfolding transfer
    transfer-mirrors name u = lookup-insert manifest_filename name _ _ ∙ rw (copied name u) refl

    transfer_stores :
        (e : String × Bytes)
        → NodupKeys staging
        → Found files e
        → lookup e.0 (transfer storage now staging_dir staging inbox log).1 ≡ some e.1
    unfolding transfer
    transfer_stores (name, bytes) u found =
        lookup-insert manifest_filename name _ _
        ∙ ground (
          arith,
          eq_iff manifest_filename name,
          manifest-is_yml,
          copied name u,
          lookup-staging_files staging name u,
        )

    -- If no two staged files have one name, then each record of the manifest names a file of the
    -- inbox and carries the digest and the size of its content.
    pub manifest-describes :
        NodupKeys staging
        → All
            (λ r.
              (bytes : Bytes) × (lookup r.name
                  (transfer storage now staging_dir staging inbox log).1
                ≡ some bytes)
              × (r.sha256 ≡ storage.sha256_hex bytes)
              × (r.size_bytes ≡ storage.size bytes))
            (transfer storage now staging_dir staging inbox log).0.files
    unfolding transfer
    manifest-describes u =
        All-map (Found files) _ (file_record storage) files
          (λ e found. (e.1, transfer_stores e u found, refl, refl))
          (All-Found files (NodupKeys-staging_files staging u))
