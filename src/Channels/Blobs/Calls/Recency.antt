-- ===== src/Channels/Blobs/Calls/Recency.antt =====
-- Which blobs a `put` evicts.
use alfred_ai.Base.{
  ℕ, ◌≤◌, String, ◌≡◌, ◌≢◌, refl, ◌∙◌, ap, sym, true, none, some, arith, ◌⊎◌, length, lookup,
  str_eq, remove, put_in, lookup-put_in_ne, lookup-put_in_self, lookup-remove_ne, inl, inr,
  Bool-cases, Option-cases, subst, eq_iff, put_in-IsMap, remove-IsMap, IsMap,
}
use alfred_ai.Channels.Blobs.{
  Bytes, BlobMetadata, BlobStore, put, put_locked, after_initialize, touch_existing,
  file_matches_digest, new_metadata, write_blob,
}
use alfred_ai.Channels.Blobs.Eviction.{Evicted-oldest}
use alfred_ai.Channels.Blobs.Sound.{IsSound, initialize-ready}
use alfred_ai.Channels.Blobs.Calls.{put-opened, write_blob_lem}

module _ (max_bytes max_entries : ℕ) (digest : Bytes → String) (trim : String → String) where
  abbrev Older : BlobStore → BlobStore → String → Type 0
  Older s s' id =
      (k j : String) (m n : BlobMetadata)
      → lookup k s.index ≡ some m
      → lookup k s'.index ≡ none
      → lookup j s'.index ≡ some n
      → id ≢ j
      → m.last_access_at ≤ n.last_access_at

  write_blob-Older :
      (now modified : ℕ) (bytes : Bytes) (mime : String) (s : BlobStore)
      → (max_bytes ≡ 0) ⊎ (length bytes ≤ max_bytes)
      → IsSound max_bytes max_entries s
      → s.initialized ≡ true
      → Older s
          (write_blob max_bytes max_entries digest trim now modified bytes mime (digest bytes) s).0
          (digest bytes)
  write_blob-Older now modified bytes mime s small h ready k j m n there gone stays other =
      let id = digest bytes in
      let (s', run, held, (w, made, evicted)) =
        write_blob_lem max_bytes max_entries digest trim now modified bytes mime s small h ready in
      let left : lookup k s'.index ≡ none = subst (λ r. lookup k r.0.index ≡ none) run gone in
      let kept : lookup j s'.index ≡ some n = subst (λ r. lookup j r.0.index ≡ some n) run stays in
      let apart : id ≢ k = λ x.
        let (o, entry) = held.entry in
        let mine : lookup k s'.index ≡ some o = subst (λ i. lookup i s'.index ≡ some o) x entry in
        cc in
      let before : lookup k w.index ≡ some m =
        subst (λ v. lookup k v.index ≡ some m) (sym made)
          (lookup-put_in_ne id k (new_metadata now mime bytes) (remove id s.index) apart
            ∙ (lookup-remove_ne id k s.index apart ∙ there)) in
      Evicted-oldest max_bytes max_entries k j m n evicted
        (subst (λ v. IsMap v.index) (sym made)
          (put_in-IsMap id (new_metadata now mime bytes) (remove id s.index)
            (remove-IsMap id s.index h.index_once)))
        before left kept (ground (arith, eq_iff id j))

  touched-Older :
      (id : String) (o : BlobMetadata) (s s' : BlobStore)
      → s'.index ≡ put_in id o s.index
      → Older s s' id
  touched-Older id o s s' kept k j m n there gone stays other = elim (Bool-cases (str_eq id k)) [
    | inl hit ↦
        let same : id ≡ k = (eq_iff id k).0 hit in
        let mine : lookup k (put_in id o s.index) ≡ some o =
          subst (λ i. lookup i (put_in id o s.index) ≡ some o) same
            (lookup-put_in_self id o s.index) in
        let here : lookup k s'.index ≡ some o = rw kept mine in cc
    | inr miss ↦
        let apart : id ≢ k = λ x. ground (arith, eq_iff id k) in
        let here : lookup k s'.index ≡ some m =
          rw kept (lookup-put_in_ne id k o s.index apart ∙ there) in
        cc
  ]

  put_locked-Older :
      (now modified : ℕ) (bytes : Bytes) (mime : String) (s : BlobStore)
      → (max_bytes ≡ 0) ⊎ (length bytes ≤ max_bytes)
      → IsSound max_bytes max_entries s
      → s.initialized ≡ true
      → Older s
          (put_locked max_bytes max_entries digest trim now modified bytes mime (digest bytes) s).0
          (digest bytes)
  unfolding put_locked
  put_locked-Older now modified bytes mime s small h ready =
      let id = digest bytes in
      let written = write_blob-Older now modified bytes mime s small h ready in
      elim (Option-cases (lookup id s.index)) [
        | inl absent ↦ rw (absent, put_locked) written
        | inr (m, e) ↦
            elim (Bool-cases (file_matches_digest max_bytes max_entries digest trim id s)) [
              | inr other ↦ rw (e, other, put_locked) written
              | inl hit ↦
                  rw (e, hit, put_locked)
                    (touched-Older id _ s
                      (touch_existing max_bytes max_entries digest trim now mime id m s) refl)
            ]
      ]

  -- A `put`, of a blob within the cap, with a type that is not blank, in a sound store that is
  -- initialized: a blob that it evicts was used no later than any other than the new one that stays.
  put_evicts_oldest :
      (now modified : ℕ) (bytes : Bytes) (mime : String) (s : BlobStore) (k j : String)
      (m n : BlobMetadata)
      → trim mime ≢ ""
      → (max_bytes ≡ 0) ⊎ (length bytes ≤ max_bytes)
      → IsSound max_bytes max_entries s
      → s.initialized ≡ true
      → lookup k s.index ≡ some m
      → lookup k (put max_bytes max_entries digest trim now modified bytes mime s).0.index ≡ none
      → lookup j (put max_bytes max_entries digest trim now modified bytes mime s).0.index ≡ some n
      → digest bytes ≢ j
      → m.last_access_at ≤ n.last_access_at
  put_evicts_oldest now modified bytes mime s k j m n typed small h ready there gone stays other =
      let run =
        put-opened max_bytes max_entries digest trim now modified bytes mime s typed small
        ∙ ap
            (after_initialize max_bytes max_entries
              (put_locked max_bytes max_entries digest trim now modified bytes mime (digest bytes)))
            (initialize-ready max_bytes max_entries s ready) in
      put_locked-Older now modified bytes mime s small h ready k j m n there
        (subst (λ r. lookup k r.0.index ≡ none) run gone)
        (subst (λ r. lookup j r.0.index ≡ some n) run stays) other
