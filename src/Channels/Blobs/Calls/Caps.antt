-- ===== src/Channels/Blobs/Calls/Caps.antt =====
-- The caps over a history of calls.
use alfred_ai.Base.{
  ℕ, ◌≤◌, String, ◌≡◌, ◌≢◌, true, false, arith, ◌⊎◌, length, str_eq, List, [], ◌∷◌, remove-IsMap,
  inl, inr, Bool-cases, ltb, eq_iff, ◌&&◌,
}
use alfred_ai.Channels.Blobs.{
  Bytes, BlobFile, BlobMetadata, BlobStore, Index, is_blob_id, put, read_locked, get, get_metadata,
  after_initialize, initialize, BlobCall, puts, gets, asks, loses, take_call, take_calls,
  is_over_cap, total_bytes,
}
use alfred_ai.Channels.Blobs.Sound.{IsSound, IsSized, initialize_lem, lost-IsSized}
use alfred_ai.Channels.Blobs.Calls.{put_lem, read_locked-IsSound}

-- The caps, where zero is none.
abbrev pub IsWithinCaps : ℕ → ℕ → Index → Type 0
IsWithinCaps max_bytes max_entries index =
    ((max_entries ≡ 0) ⊎ (length index ≤ max_entries))
    × ((max_bytes ≡ 0) ⊎ (total_bytes index ≤ max_bytes))

is_over_cap-IsWithinCaps :
    (max_bytes max_entries : ℕ) (index : Index)
    → is_over_cap max_bytes max_entries index ≡ false
    → IsWithinCaps max_bytes max_entries index
unfolding is_over_cap
is_over_cap-IsWithinCaps max_bytes max_entries index h = ground arith

module _ (max_bytes max_entries : ℕ) (digest : Bytes → String) (trim : String → String) where
  read-IsSound :
      {A : Type 0} (read : BlobFile → BlobMetadata → A) (now : ℕ) (id : String) (s : BlobStore)
      → IsSound max_bytes max_entries s
      → IsSound max_bytes max_entries
          (after_initialize max_bytes max_entries
            (read_locked max_bytes max_entries read now id)
            (initialize max_bytes max_entries s)).0
  read-IsSound read now id s h =
      let (s1, started, sound, ready, fewer) = initialize_lem max_bytes max_entries s h in
      rw started (read_locked-IsSound max_bytes max_entries read now id s1 sound)

  put-IsSound :
      (now modified : ℕ) (bytes : Bytes) (mime : String) (s : BlobStore)
      → IsSound max_bytes max_entries s
      → IsSound max_bytes max_entries
          (put max_bytes max_entries digest trim now modified bytes mime s).0
  unfolding put
  put-IsSound now modified bytes mime s h = elim (Bool-cases (str_eq (trim mime) "")) [
    | inl blank ↦ rw (blank, put) h
    | inr typed ↦ elim (Bool-cases (ltb 0 max_bytes && ltb max_bytes (length bytes))) [
      | inl large ↦ rw (typed, large, put) h
      | inr small ↦
          let named : trim mime ≢ "" = λ x. ground (arith, eq_iff (trim mime) "") in
          let fits : (max_bytes ≡ 0) ⊎ (length bytes ≤ max_bytes) = ground arith in
          let (s', run, held) =
            put_lem max_bytes max_entries digest trim now modified bytes mime s named fits h in
          rw run held.sound
    ]
  ]

  take_call-IsSound :
      (s : BlobStore) (c : BlobCall)
      → IsSound max_bytes max_entries s
      → IsSound max_bytes max_entries (take_call max_bytes max_entries digest trim s c)
  unfolding take_call get get_metadata
  take_call-IsSound s (puts now modified bytes mime) h = put-IsSound now modified bytes mime s h
  take_call-IsSound s (gets now id) h = elim (Bool-cases (is_blob_id id)) [
    | inl named ↦ rw (named, get, take_call) (read-IsSound (λ f m. f.bytes) now id s h)
    | inr other ↦ rw (other, get, take_call) h
  ]
  take_call-IsSound s (asks now id) h = elim (Bool-cases (is_blob_id id)) [
    | inl named ↦
        rw (named, get_metadata, take_call) (read-IsSound (λ f m. (m.mime, m.size)) now id s h)
    | inr other ↦ rw (other, get_metadata, take_call) h
  ]
  take_call-IsSound s (loses name) h = record {
    files_once = remove-IsMap name s.files h.files_once;
    index_once = h.index_once;
    sized = lost-IsSized s.files s.index name h.sized;
    fits = h.fits;
  }

  pub take_calls-IsSound :
      (s : BlobStore) (cs : List BlobCall)
      → IsSound max_bytes max_entries s
      → IsSound max_bytes max_entries (take_calls max_bytes max_entries digest trim s cs)
  unfolding take_calls
  take_calls-IsSound s [] h = h
  take_calls-IsSound s (c ∷ cs) h =
      take_calls-IsSound (take_call max_bytes max_entries digest trim s c) cs
        (take_call-IsSound s c h)

  -- Over every history of calls on a sound store, in which other programs may remove files: once the
  -- store is initialized, the blobs of its index are within both caps, and the size of each of them
  -- is that of its file, where the file is there.
  pub take_calls-IsWithinCaps :
      (s : BlobStore) (cs : List BlobCall)
      → IsSound max_bytes max_entries s
      → (take_calls max_bytes max_entries digest trim s cs).initialized ≡ true
      → let after = take_calls max_bytes max_entries digest trim s cs in
        IsWithinCaps max_bytes max_entries after.index × IsSized after.files after.index
  take_calls-IsWithinCaps s cs h ready =
      let sound = take_calls-IsSound s cs h in
      (is_over_cap-IsWithinCaps max_bytes max_entries _ (sound.fits ready), sound.sized)
