-- ===== src/Channels/Blobs/Calls/RoundTrip.antt =====
-- `put` and then `get`.
use alfred_ai.Base.{ℕ, ◌≤◌, String, ◌≡◌, ◌≢◌, refl, ◌∙◌, ap, true, some, ok, ◌⊎◌, length, lookup}
use alfred_ai.Channels.Blobs.{Bytes, BlobFile, BlobStore, is_blob_id, put, read_locked, get}
use alfred_ai.Channels.Blobs.Sound.{IsSound, initialize-ready}
use alfred_ai.Channels.Blobs.Calls.{Holding, put_lem}

module _ (max_bytes max_entries : ℕ) (digest : Bytes → String) (trim : String → String) where
  Holding-get :
      (later : ℕ) (bytes : Bytes) (s s' : BlobStore)
      → is_blob_id (digest bytes) ≡ true
      → (held : Holding max_bytes max_entries digest trim bytes s s')
      → (get max_bytes max_entries later (digest bytes) s').1 ≡ ok held.file.bytes
  unfolding get read_locked
  Holding-get later bytes s s' named held =
      let (m, entry) = held.entry in
      let file = held.here in
      rw
        (named, initialize-ready max_bytes max_entries s' held.ready, entry, file, get, read_locked)
        refl

  -- Where the index is sound, the digest of every blob has the form of an id, the blob is within the
  -- cap on bytes and its type is not blank: `put` returns the digest, and `get` of it then returns a
  -- blob of the same digest, which is the one that was put or the one that was in the directory under
  -- this digest.
  pub put-get :
      (hex : (b : Bytes) → is_blob_id (digest b) ≡ true) (now modified later : ℕ) (bytes : Bytes)
      (mime : String) (s : BlobStore)
      → trim mime ≢ ""
      → (max_bytes ≡ 0) ⊎ (length bytes ≤ max_bytes)
      → IsSound max_bytes max_entries s
      → let stored = put max_bytes max_entries digest trim now modified bytes mime s in
        (stored.1 ≡ ok (digest bytes))
        × ((f : BlobFile) × ((get max_bytes max_entries later (digest bytes) stored.0).1
              ≡ ok f.bytes)
            × (digest f.bytes ≡ digest bytes)
            × ((f.bytes ≡ bytes) ⊎ (lookup (digest bytes) s.files ≡ some f)))
  put-get hex now modified later bytes mime s typed small h =
      let (s', run, held) =
        put_lem max_bytes max_entries digest trim now modified bytes mime s typed small h in
      (
        ap (λ r. r.1) run,
        (
          held.file,
          ap (λ r. (get max_bytes max_entries later (digest bytes) r.0).1) run
              ∙ Holding-get later bytes s s' (hex bytes) held,
          held.same,
          held.origin,
        ),
      )
