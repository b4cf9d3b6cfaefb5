-- ===== src/Channels/Blobs/Calls.antt =====
-- What each operation of `BlobStore` leaves, and what it returns.
pub mod RoundTrip
pub mod Caps
pub mod Recency
use alfred_ai.Base.{
  ℕ, zero, suc, ◌+◌, ◌≤◌, ◌<◌, String, ◌≡◌, ◌≢◌, refl, sym, ap, ◌∙◌, Bool, true, false, ◌&&◌,
  Option, none, some, List, [], ◌∷◌, Result, ok, err, arith, inl, inr, ◌⊎◌, All, Bool-cases,
  Option-cases, eq_iff, str_eq, is_text, ltb, length, lookup, remove, put_in, IsMap, remove-IsMap,
  put_in-IsMap, lookup-remove_ne, lookup-remove_self, lookup_removed, lookup-put_in_self,
  lookup-put_in_ne, subst, if◌then◌else◌,
}
use alfred_ai.Channels.Blobs.{
  Bytes, BlobMetadata, BlobFile, Index, BlobStore, BlobError, is_over_cap, evict_until_under_cap,
  total_bytes, index_files, initialize, is_blob_id, set_metadata, write_metadata,
  file_matches_digest, touch_existing, written_blob, new_metadata, new_file, evicted_put,
  write_blob, put_locked, put, forget_blob, accessed, read_locked, get, get_metadata,
  after_initialize, invalid_mime, blob_too_large, blob_not_found, invalid_blob_id,
}
use alfred_ai.Channels.Blobs.Eviction.{
  Evicted, evict_rounds-Evicted, Evicted-fits, Evicted-IsMap, Evicted-left, Evicted-files_IsMap,
  Evicted-keeps, Evicted-initialized,
}
use alfred_ai.Channels.Blobs.Sound.{
  IsSized, IsSound, put_in-IsSized, remove-IsSized, written-IsSized, lost-IsSized, initialize_lem,
  initialize-ready, Evicted-IsSound,
}

total_bytes-put_in :
    (id : String) (m n : BlobMetadata) (index : Index)
    → lookup id index ≡ some m
    → n.size ≡ m.size
    → (total_bytes (put_in id n index) ≡ total_bytes index)
      × (length (put_in id n index) ≡ length index)
unfolding lookup put_in
total_bytes-put_in id m n [] e size = cc
total_bytes-put_in id m n ((k, o) ∷ index) e size = ground (arith, total_bytes-put_in id m n index)

total_bytes-remove :
    (id : String) (index : Index)
    → (total_bytes (remove id index) ≤ total_bytes index)
      × (length (remove id index) ≤ length index)
unfolding remove
total_bytes-remove id [] = (omega arith, omega arith)
total_bytes-remove id ((k, o) ∷ index) = ground (arith, total_bytes-remove id index)

module _ (max_bytes max_entries : ℕ) where
  -- A new time of use, or a new type, changes nothing that the caps count.
  pub set_metadata-IsSound :
      (id : String) (m n : BlobMetadata) (s : BlobStore)
      → lookup id s.index ≡ some m
      → n.size ≡ m.size
      → IsSound max_bytes max_entries s
      → IsSound max_bytes max_entries (set_metadata max_bytes max_entries id n s)
  unfolding is_over_cap
  set_metadata-IsSound id m n s e size h =
      let (total, count) = total_bytes-put_in id m n s.index e size in
      record {
        files_once = h.files_once;
        index_once = put_in-IsMap id n s.index h.index_once;
        sized =
            put_in-IsSized s.files id n s.index (λ f e'. h.sized id m f e e' ∙ sym size) h.sized;
        fits = λ ready. let under = h.fits ready in ground arith;
      }

  forget_blob-IsSound :
      (id : String) (s : BlobStore)
      → IsSound max_bytes max_entries s
      → IsSound max_bytes max_entries (forget_blob max_bytes max_entries id s)
  unfolding is_over_cap
  forget_blob-IsSound id s h =
      let (total, count) = total_bytes-remove id s.index in
      record {
        files_once = h.files_once;
        index_once = remove-IsMap id s.index h.index_once;
        sized = remove-IsSized s.files id s.index h.sized;
        fits = λ ready. let under = h.fits ready in ground arith;
      }

  pub read_locked-IsSound :
      {A : Type 0} (read : BlobFile → BlobMetadata → A) (now : ℕ) (id : String) (s : BlobStore)
      → IsSound max_bytes max_entries s
      → IsSound max_bytes max_entries (read_locked max_bytes max_entries read now id s).0
  unfolding read_locked
  read_locked-IsSound read now id s h = elim (Option-cases (lookup id s.index)) [
    | inl absent ↦ rw (absent, read_locked) h
    | inr (m, e) ↦ elim (Option-cases (lookup id s.files)) [
      | inl lost ↦ rw (e, lost, read_locked) (forget_blob-IsSound id s h)
      | inr (f, e') ↦
          rw (e, e', read_locked)
            (set_metadata-IsSound id m (accessed max_bytes max_entries now m) s e refl h)
    ]
  ]

  module _ (digest : Bytes → String) (trim : String → String) where
    -- After a `put` of `bytes`: the blob is in the index and has a file with its digest, which is
    -- the file of these bytes or the file that was there.
    pub record Holding (bytes : Bytes) (s s' : BlobStore) : Type 0 where
      pub sound : IsSound max_bytes max_entries s'
      pub ready : s'.initialized ≡ true
      pub entry : (m : BlobMetadata) × (lookup (digest bytes) s'.index ≡ some m)
      pub file : BlobFile
      pub here : lookup (digest bytes) s'.files ≡ some file
      pub same : digest file.bytes ≡ digest bytes
      pub origin : (file.bytes ≡ bytes) ⊎ (lookup (digest bytes) s.files ≡ some file)

    written-FitsAlone :
        (bytes : Bytes) (id : String) (n : BlobMetadata) (index : Index)
        → (max_bytes ≡ 0) ⊎ (length bytes ≤ max_bytes)
        → n.size ≡ length bytes
        → (k : String) (m : BlobMetadata) → is_text (some id) k ≡ true
        → lookup k (put_in id n index) ≡ some m
        → (max_bytes ≡ 0) ⊎ (m.size ≤ max_bytes)
    written-FitsAlone bytes id n index small size k m mine e =
        let one : id ≡ k = (eq_iff id k).0 mine in
        let there : lookup k (put_in id n index) ≡ some n =
          subst (λ j. lookup j (put_in id n index) ≡ some n) one (lookup-put_in_self id n index) in
        let two : n ≡ m = cc in rw (← two) (rw size small)

    write_blob_lem :
        (now modified : ℕ) (bytes : Bytes) (mime : String) (s : BlobStore)
        → (max_bytes ≡ 0) ⊎ (length bytes ≤ max_bytes)
        → IsSound max_bytes max_entries s
        → s.initialized ≡ true
        → (s' : BlobStore) × (write_blob max_bytes max_entries digest trim now modified bytes mime
              (digest bytes)
              s
            ≡ (s', ok (digest bytes)))
          × Holding bytes s s'
          × ((w : BlobStore) × (w
                ≡ written_blob max_bytes max_entries digest trim now modified bytes mime
                    (digest bytes)
                    s)
              × Evicted max_bytes max_entries (some (digest bytes)) w s')
    unfolding write_blob evict_until_under_cap
    write_blob_lem now modified bytes mime s small h ready =
        let id = digest bytes in
        let w = written_blob max_bytes max_entries digest trim now modified bytes mime id s in
        let once =
          put_in-IsMap id (new_metadata now mime bytes) (remove id s.index)
            (remove-IsMap id s.index h.index_once) in
        let files = put_in-IsMap id (new_file modified bytes) s.files h.files_once in
        let sized =
          written-IsSized s.files s.index id (new_file modified bytes) (new_metadata now mime bytes)
            refl h.sized in
        let (s', run, gone) =
          evict_rounds-Evicted max_bytes max_entries (suc (length w.index)) (some id) w
            (omega arith) once
            (written-FitsAlone bytes id (new_metadata now mime bytes) (remove id s.index) small
              refl) in
        let (entry, file) = Evicted-keeps max_bytes max_entries gone once in
        (
          s',
          ap (evicted_put max_bytes max_entries digest trim id) run,
          record {
            sound = Evicted-IsSound max_bytes max_entries gone files once sized;
            ready = Evicted-initialized max_bytes max_entries gone ∙ ready;
            entry = (
              new_metadata now mime bytes,
              entry ∙ lookup-put_in_self id (new_metadata now mime bytes) (remove id s.index),
            );
            file = new_file modified bytes;
            here = file ∙ lookup-put_in_self id (new_file modified bytes) s.files;
            same = refl;
            origin = inl refl;
          },
          (w, refl, gone),
        )

    file_matches-file :
        (id : String) (s : BlobStore)
        → file_matches_digest max_bytes max_entries digest trim id s ≡ true
        → (f : BlobFile) × (lookup id s.files ≡ some f) × (digest f.bytes ≡ id)
    unfolding file_matches_digest
    file_matches-file id s h = elim (Option-cases (lookup id s.files)) [
      | inl absent ↦ ground arith
      | inr (f, e) ↦ (f, e, ground (arith, eq_iff (digest f.bytes) id))
    ]

    -- `put` in a store that is initialized, where the blob is within the cap.
    pub put_locked_lem :
        (now modified : ℕ) (bytes : Bytes) (mime : String) (s : BlobStore)
        → (max_bytes ≡ 0) ⊎ (length bytes ≤ max_bytes)
        → IsSound max_bytes max_entries s
        → s.initialized ≡ true
        → (s' : BlobStore) × (put_locked max_bytes max_entries digest trim now modified bytes mime
              (digest bytes)
              s
            ≡ (s', ok (digest bytes)))
          × Holding bytes s s'
    unfolding put_locked
    put_locked_lem now modified bytes mime s small h ready =
        let id = digest bytes in
        let (w, run, held, more) = write_blob_lem now modified bytes mime s small h ready in
        elim (Option-cases (lookup id s.index)) [
          | inl absent ↦ (w, rw (absent, put_locked) run, held)
          | inr (m, e) ↦
              elim (Bool-cases (file_matches_digest max_bytes max_entries digest trim id s)) [
                | inr other ↦ (w, rw (e, other, put_locked) run, held)
                | inl hit ↦
                    let (f, here, same) = file_matches-file id s hit in
                    let s' = touch_existing max_bytes max_entries digest trim now mime id m s in
                    (
                      s',
                      rw (e, hit, put_locked) refl,
                      record {
                        sound = set_metadata-IsSound id m _ s e refl h;
                        ready = ready;
                        entry = (_, lookup-put_in_self id _ s.index);
                        file = f;
                        here = here;
                        same = same;
                        origin = inr here;
                      },
                    )
              ]
        ]

    not_too_large :
        (bytes : Bytes)
        → (max_bytes ≡ 0) ⊎ (length bytes ≤ max_bytes)
        → (ltb 0 max_bytes && ltb max_bytes (length bytes)) ≡ false
    not_too_large bytes (inl unbounded) = ground arith
    not_too_large bytes (inr small) = ground arith

    pub put-opened :
        (now modified : ℕ) (bytes : Bytes) (mime : String) (s : BlobStore)
        → trim mime ≢ ""
        → (max_bytes ≡ 0) ⊎ (length bytes ≤ max_bytes)
        → put max_bytes max_entries digest trim now modified bytes mime s
          ≡ after_initialize max_bytes max_entries
              (put_locked max_bytes max_entries digest trim now modified bytes mime (digest bytes))
              (initialize max_bytes max_entries s)
    unfolding put
    put-opened now modified bytes mime s typed small =
        let named : str_eq (trim mime) "" ≡ false = ground (arith, eq_iff (trim mime) "") in
        rw (named, not_too_large bytes small, put) refl

    -- `put` of a blob within the cap, in any store, ends and returns the digest.
    pub put_lem :
        (now modified : ℕ) (bytes : Bytes) (mime : String) (s : BlobStore)
        → trim mime ≢ ""
        → (max_bytes ≡ 0) ⊎ (length bytes ≤ max_bytes)
        → IsSound max_bytes max_entries s
        → (s' : BlobStore) × (put max_bytes max_entries digest trim now modified bytes mime s
            ≡ (s', ok (digest bytes)))
          × Holding bytes s s'
    put_lem now modified bytes mime s typed small h =
        let (s1, started, sound, ready, fewer) = initialize_lem max_bytes max_entries s h in
        let (s', run, held) = put_locked_lem now modified bytes mime s1 small sound ready in
        (
          s',
          put-opened now modified bytes mime s typed small
              ∙ ap
                  (after_initialize max_bytes max_entries (
                    put_locked max_bytes max_entries digest trim now modified bytes mime
                      (digest bytes)))
                  started
              ∙ run,
          record {
            sound = held.sound;
            ready = held.ready;
            entry = held.entry;
            file = held.file;
            here = held.here;
            same = held.same;
            origin = elim held.origin [
              | inl new ↦ inl new
              | inr old ↦ inr (fewer (digest bytes) held.file old)
            ];
          },
        )
