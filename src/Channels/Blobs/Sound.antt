-- ===== src/Channels/Blobs/Sound.antt =====
-- The invariant of `BlobStore`, and that finding the blobs of a directory establishes it.
use alfred_ai.Base.{
  ℕ, suc, String, ◌≡◌, ◌≢◌, refl, sym, ◌∙◌, true, false, Option, none, some, List, [], ◌∷◌, ok,
  arith, inl, inr, Bool-cases, eq_iff, str_eq, length, lookup, remove, put_in, IsMap, put_in-IsMap,
  lookup_removed, lookup-put_in_self, lookup-put_in_ne, subst,
}
use alfred_ai.Channels.Blobs.{
  BlobMetadata, BlobFile, Index, BlobStore, is_over_cap, evict_until_under_cap, index_files,
  found_metadata, initialize, is_blob_id,
}
use alfred_ai.Channels.Blobs.Eviction.{
  Evicted, evict_rounds-Evicted, Evicted-fits, Evicted-IsMap, Evicted-left, Evicted-files_IsMap,
  Evicted-files,
}

-- The size of an entry is the size of its file, where the file is there.
abbrev pub IsSized : List (String × BlobFile) → Index → Type 0
IsSized files index =
    (id : String) (m : BlobMetadata) (f : BlobFile)
    → lookup id index ≡ some m
    → lookup id files ≡ some f
    → length f.bytes ≡ m.size

module _ (files : List (String × BlobFile)) where
  pub put_in-IsSized :
      (id : String) (m : BlobMetadata) (index : Index)
      → ((f : BlobFile) → lookup id files ≡ some f → length f.bytes ≡ m.size)
      → IsSized files index
      → IsSized files (put_in id m index)
  put_in-IsSized id m index own h k n f e e' = elim (Bool-cases (str_eq id k)) [
    | inl hit ↦
        let same : id ≡ k = (eq_iff id k).0 hit in
        let here : lookup k (put_in id m index) ≡ some m =
          subst (λ j. lookup j (put_in id m index) ≡ some m) same (lookup-put_in_self id m index) in
        let one : m ≡ n = cc in rw (← one) (own f (rw same e'))
    | inr miss ↦
        let apart : id ≢ k = λ x. ground (arith, eq_iff id k) in
        h k n f (sym (lookup-put_in_ne id k m index apart) ∙ e) e'
  ]

  pub remove-IsSized :
      (id : String) (index : Index) → IsSized files index → IsSized files (remove id index)
  remove-IsSized id index h k n f e e' = h k n f (lookup_removed id k n index e).1 e'

-- A file that is written, and the entry of it.
pub written-IsSized :
    (files : List (String × BlobFile)) (index : Index) (id : String) (f : BlobFile)
    (m : BlobMetadata)
    → length f.bytes ≡ m.size
    → IsSized files index
    → IsSized (put_in id f files) (put_in id m (remove id index))
written-IsSized files index id f m size h k n g e e' = elim (Bool-cases (str_eq id k)) [
  | inl hit ↦
      let same : id ≡ k = (eq_iff id k).0 hit in
      let entry : lookup k (put_in id m (remove id index)) ≡ some m =
        subst (λ j. lookup j (put_in id m (remove id index)) ≡ some m) same
          (lookup-put_in_self id m (remove id index)) in
      let file : lookup k (put_in id f files) ≡ some f =
        subst (λ j. lookup j (put_in id f files) ≡ some f) same (lookup-put_in_self id f files) in
      let one : m ≡ n = cc in let other : f ≡ g = cc in rw (← one, ← other) size
  | inr miss ↦
      let apart : id ≢ k = λ x. ground (arith, eq_iff id k) in
      let entry : lookup k (remove id index) ≡ some n =
        sym (lookup-put_in_ne id k m (remove id index) apart) ∙ e in
      h k n g (lookup_removed id k n index entry).1 (sym (lookup-put_in_ne id k f files apart) ∙ e')
]

pub lost-IsSized :
    (files : List (String × BlobFile)) (index : Index) (id : String)
    → IsSized files index
    → IsSized (remove id files) index
lost-IsSized files index id h k n f e e' = h k n f e (lookup_removed id k f files e').1

found-size :
    (max_bytes max_entries : ℕ) (o : Option BlobMetadata) (f : BlobFile)
    → length f.bytes ≡ (found_metadata max_bytes max_entries o f).size
found-size max_bytes max_entries none f = refl
found-size max_bytes max_entries (some m) f = refl

-- The entries that are found in a part of a directory.
pub index_files-lem :
    (max_bytes max_entries : ℕ) (all files : List (String × BlobFile)) (sidecars index : Index)
    → ((k : String) (f : BlobFile) → lookup k files ≡ some f → lookup k all ≡ some f)
    → IsMap files
    → IsMap index
    → IsSized all index
    → IsMap (index_files max_bytes max_entries files sidecars index)
      × IsSized all (index_files max_bytes max_entries files sidecars index)
unfolding index_files lookup
index_files-lem max_bytes max_entries all [] sidecars index part u v h = (v, h)
index_files-lem max_bytes max_entries all ((name, f) ∷ files) sidecars index part u v h =
    let here : lookup name all ≡ some f = part name f (ground (arith, eq_iff name name)) in
    let later : (k : String) (g : BlobFile) → lookup k files ≡ some g → lookup k all ≡ some g =
      λ k g e. elim (Bool-cases (str_eq name k)) [
        | inl hit ↦
            let same : name ≡ k = (eq_iff name k).0 hit in
            let gone : lookup k files ≡ none = subst (λ j. lookup j files ≡ none) same u.0 in cc
        | inr miss ↦ part k g (ground arith)
      ] in
    elim (Bool-cases (is_blob_id name)) [
      | inl named ↦
          let m = found_metadata max_bytes max_entries (lookup name sidecars) f in
          let sized : (g : BlobFile) → lookup name all ≡ some g → length g.bytes ≡ m.size = λ g e.
            let one : f ≡ g = cc in
            rw (← one) (found-size max_bytes max_entries (lookup name sidecars) f) in
          rw named (
            index_files-lem max_bytes max_entries all files sidecars (put_in name m index) later u.1
              (put_in-IsMap name m index v) (put_in-IsSized all name m index sized h))
      | inr other ↦
          rw other (index_files-lem max_bytes max_entries all files sidecars index later u.1 v h)
    ]

module _ (max_bytes max_entries : ℕ) where
  -- What holds of a store between two operations.
  pub record IsSound (s : BlobStore) : Type 0 where
    pub files_once : IsMap s.files
    pub index_once : IsMap s.index
    pub sized : IsSized s.files s.index
    pub fits : s.initialized ≡ true → is_over_cap max_bytes max_entries s.index ≡ false

  -- A store that has not looked into its directory yet.
  pub start-IsSound :
      (s : BlobStore) → s.initialized ≡ false → s.index ≡ [] → IsMap s.files → IsSound s
  unfolding lookup
  start-IsSound s fresh empty u = record {
    files_once = u;
    index_once = rw empty tt;
    sized = rw empty (λ id m f e e'. cc);
    fits = λ h. cc;
  }

  pub Evicted-IsSound :
      {protected : Option String} {s s' : BlobStore}
      → Evicted max_bytes max_entries protected s s'
      → IsMap s.files
      → IsMap s.index
      → IsSized s.files s.index
      → IsSound s'
  Evicted-IsSound {protected} {s} {s'} gone u v h = record {
    files_once = Evicted-files_IsMap max_bytes max_entries gone u;
    index_once = Evicted-IsMap max_bytes max_entries gone v;
    sized = λ id m f e e'.
        let (entry, file) = Evicted-left max_bytes max_entries id m gone e in
        h id m f entry (sym file ∙ e');
    fits = λ x. Evicted-fits max_bytes max_entries gone;
  }

  pub initialize-ready :
      (s : BlobStore) → s.initialized ≡ true → initialize max_bytes max_entries s ≡ (s, ok tt)
  unfolding initialize
  initialize-ready s h = ground arith

  initialize-runs :
      (s s' : BlobStore)
      → s.initialized ≡ false
      → evict_until_under_cap max_bytes max_entries none
          (record s { index = index_files max_bytes max_entries s.files s.sidecars s.index })
        ≡ (s', ok tt)
      → initialize max_bytes max_entries s ≡ (record s' { initialized = true }, ok tt)
  unfolding initialize
  initialize-runs s s' h run = ground arith

  -- `initialize` ends, and adds no file.
  pub initialize_lem :
      (s : BlobStore)
      → IsSound s
      → (s' : BlobStore) × (initialize max_bytes max_entries s ≡ (s', ok tt))
        × IsSound s'
        × (s'.initialized ≡ true)
        × ((k : String) (f : BlobFile) → lookup k s'.files ≡ some f → lookup k s.files ≡ some f)
  unfolding initialize evict_until_under_cap
  initialize_lem s h = elim (Bool-cases s.initialized) [
    | inl before ↦ (s, initialize-ready s before, h, before, λ k f e. e)
    | inr fresh ↦
        let found = index_files max_bytes max_entries s.files s.sidecars s.index in
        let start : BlobStore = record s { index = found } in
        let (once, sized) =
          index_files-lem max_bytes max_entries s.files s.files s.sidecars s.index (λ k f e. e)
            h.files_once h.index_once h.sized in
        let (s', run, gone) =
          evict_rounds-Evicted max_bytes max_entries (suc (length found)) none start (omega arith)
            once (λ id m own. ground arith) in
        let sound = Evicted-IsSound gone h.files_once once sized in
        (
          record s' { initialized = true },
          initialize-runs s s' fresh run,
          record {
            files_once = sound.files_once;
            index_once = sound.index_once;
            sized = sound.sized;
            fits = λ x. Evicted-fits max_bytes max_entries gone;
          },
          refl,
          λ k f e. Evicted-files max_bytes max_entries k f gone e,
        )
  ]
