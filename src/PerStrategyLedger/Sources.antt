-- ===== src/PerStrategyLedger/Sources.antt =====
-- The folders of source sets and of responses: what is written is read back.
use text.Mathlib.TextEquality.{eq_iff}
use Prim.Native.String.{◌++◌ as ◌<>◌, compare}
use text.Mathlib.TextLemmas.{append_assoc}
use text.Mathlib.Text.{◌==◌, is_lt}
use mathlib.Core.Option.{some-injective}
use strategy_gpt.Prelude.Sorting.{
  sorted_desc-perm, sorted_desc, sorted_desc-IsDescending, IsDescending, IsWeakOrder,
}
use strategy_gpt.Prelude.Result.{ok}
use strategy_gpt.Prelude.Dict.{Dict, lookup, lookup-assign_other, lookup-assign_self, assign}
use strategy_gpt.Prelude.{
  String, Bool, Option-cases, ◌≡◌, some, inr, inl, Bool-cases, none, sym, ◌⊎◌, ◌∙◌, Option, ap,
  refl, false, ◌∷◌, [], if◌then◌else◌, ◌&&◌, subst, arith,
}
use mathlib.Core.List.{Perm}
use strategy_gpt.PerStrategyLedger.Store.{
  PerStrategyLedger, write_source_set, canonical_files_set_hash, read_source_set, sorted_paths,
  read_texts, store_set, files_in, write_response_blob, hashed_text, read_response_blob, content_of,
  blobs_in, response_dir,
}

module _ (blake2 : String → String) (path_order : String → String → Bool) where
  -- Each folder holds files with the hash that it is named by.
  abbrev pub IsContentAddressed : PerStrategyLedger → Type 0
  IsContentAddressed ledger =
      (digest : String) (files : Dict String)
      → lookup digest ledger.sources ≡ some files
      → canonical_files_set_hash blake2 path_order files ≡ digest

  store_set-IsContentAddressed :
      (files : Dict String) (ledger : PerStrategyLedger) (found : Option (Dict String))
      → IsContentAddressed ledger
      → IsContentAddressed (
          store_set blake2 path_order
            (canonical_files_set_hash blake2 path_order files)
            files
            ledger
            found)
  store_set-IsContentAddressed files ledger (some kept) h = h
  store_set-IsContentAddressed files ledger none h = λ digest found k.
      let own = canonical_files_set_hash blake2 path_order files in
      elim (Bool-cases (own == digest)) [
        | inl same ↦
            let e = (eq_iff own digest).0 same in
            ap (canonical_files_set_hash blake2 path_order) (
              some-injective _ _ (
                sym k
                ∙ ap (λ d. lookup d (assign own files ledger.sources)) (sym e)
                ∙ lookup-assign_self own files ledger.sources))
            ∙ e
        | inr other ↦
            h digest found (sym (lookup-assign_other digest own files ledger.sources other) ∙ k)
      ]

  -- What is read for the stored files: all of them in the order of their paths, no path before a
  -- smaller one, each content with its newlines translated.
  abbrev pub IsInOrder : (newlines : String → String) (stored back : Dict String) → Type 0
  IsInOrder newlines stored back =
      (files : Dict String) × Perm files stored
      × IsDescending (λ (a b : String × String). path_order b.0 a.0) files
      × (back ≡ read_texts blake2 path_order newlines files)

  sorted_paths-IsInOrder :
      (newlines : String → String) (stored : Dict String)
      → IsWeakOrder (λ (a b : String × String). path_order b.0 a.0)
      → IsInOrder newlines stored
          (read_texts blake2 path_order newlines (sorted_paths blake2 path_order stored))
  sorted_paths-IsInOrder newlines stored order = (
    sorted_paths blake2 path_order stored,
    sorted_desc-perm _ stored,
    sorted_desc-IsDescending _ order stored,
    refl,
  )

  -- Where paths are totally ordered: a set of files whose hash has no folder is read back, in the
  -- order of its paths, from the folder that the write makes. Where the hash has a folder nothing
  -- is written, and what is read is that folder's files, which have the same hash. What is read of
  -- a file is its content with the newlines translated, CR and CRLF to LF. The folders stay
  -- content-addressed.
  pub write_source_set_lem :
      (newlines : String → String)
      (order : IsWeakOrder (λ (a b : String × String). path_order b.0 a.0)) (files : Dict String)
      (ledger : PerStrategyLedger)
      → IsContentAddressed ledger
      → let (digest, after) = write_source_set blake2 path_order files ledger in
        IsContentAddressed after
        × (digest ≡ canonical_files_set_hash blake2 path_order files)
        × (((back : Dict String) × (lookup digest ledger.sources ≡ none)
              × (read_source_set blake2 path_order newlines digest after ≡ ok back)
              × IsInOrder newlines files back)
            ⊎ ((kept : Dict String) × (back : Dict String) × (lookup digest ledger.sources
                  ≡ some kept)
                × (after ≡ ledger)
                × (canonical_files_set_hash blake2 path_order kept ≡ digest)
                × (read_source_set blake2 path_order newlines digest after ≡ ok back)
                × IsInOrder newlines kept back))
  unfolding write_source_set read_source_set
  write_source_set_lem newlines order files ledger h =
      let digest = canonical_files_set_hash blake2 path_order files in
      let read = files_in blake2 path_order newlines in
      (
        store_set-IsContentAddressed files ledger (lookup digest ledger.sources) h,
        refl,
        elim (Option-cases (lookup digest ledger.sources)) [
          | inl e ↦ inl (
            read_texts blake2 path_order newlines (sorted_paths blake2 path_order files),
            e,
            simp e (ap read (lookup-assign_self digest files ledger.sources)),
            sorted_paths-IsInOrder newlines files order,
          )
          | inr (kept, e) ↦ inr (
            kept,
            read_texts blake2 path_order newlines (sorted_paths blake2 path_order kept),
            e,
            ap (store_set blake2 path_order digest files ledger) e,
            h digest kept e,
            ap
                  (λ found.
                    read (
                      lookup digest
                        (store_set blake2 path_order digest files ledger found).sources))
                  e
                ∙ ap read e,
            sorted_paths-IsInOrder newlines kept order,
          )
        ],
      )

  -- A NUL in a content makes one file look like two: the two sets have the same hash.
  pub canonical_files_set_hash_nul :
      (a b c d : String)
      → is_lt (compare c a) ≡ false
      → canonical_files_set_hash blake2 path_order ((a, b <> "\0" <> c <> "\0" <> d) ∷ [])
        ≡ canonical_files_set_hash blake2 path_order ((a, b) ∷ (c, d) ∷ [])
  unfolding canonical_files_set_hash sorted_desc hashed_text
  canonical_files_set_hash_nul a b c d h = rw h (ap blake2 (simp append_assoc))

  dir_of : String → Dict (Dict String) → Dict String
  dir_of decision_id responses = blobs_in blake2 path_order (lookup decision_id responses)

  lookup-assign :
      (i k v : String) (d : Dict String)
      → lookup i (assign k v d) ≡ (if k == i then some v else lookup i d)
  lookup-assign i k v d = elim (Bool-cases (k == i)) [
    | inl e ↦ rw e (rw (sym ((eq_iff k i).0 e)) (lookup-assign_self k v d))
    | inr e ↦ rw e (lookup-assign_other i k v d e)
  ]

  -- A response is read back, with its newlines translated; every other response is as before.
  pub read-write_response_blob :
      (newlines : String → String) (decision_id stage content other_id other : String)
      (ledger : PerStrategyLedger)
      → let after = (write_response_blob blake2 path_order decision_id stage content ledger).1 in
        read_response_blob blake2 path_order newlines other_id other after ≡ (
          if (decision_id == other_id) && (stage == other)
          then ok (newlines content)
          else read_response_blob blake2 path_order newlines other_id other ledger)
  unfolding write_response_blob read_response_blob dir_of
  read-write_response_blob newlines decision_id stage content other_id other ledger =
      let blobs = assign stage content (response_dir blake2 path_order decision_id ledger) in
      elim (Bool-cases (decision_id == other_id)) [
        | inr e ↦ rw e (
            ap
              (λ d.
                content_of blake2 path_order newlines (lookup other (blobs_in blake2 path_order d)))
              (lookup-assign_other other_id decision_id blobs ledger.responses e))
        | inl e ↦ rw e (
            subst
              (λ i.
                content_of blake2 path_order newlines
                  (lookup other (dir_of i (assign decision_id blobs ledger.responses)))
                ≡ (if stage == other
                    then ok (newlines content)
                    else content_of blake2 path_order newlines
                        (lookup other (dir_of i ledger.responses))))
              ((eq_iff _ _).0 e)
              (ap
                  (λ d.
                    content_of blake2 path_order newlines
                      (lookup other (blobs_in blake2 path_order d)))
                  (lookup-assign_self decision_id blobs ledger.responses)
                ∙ ap (content_of blake2 path_order newlines) (lookup-assign other stage content _)
                ∙ ground arith))
      ]
