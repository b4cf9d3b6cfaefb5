-- ===== src/Channels/Tests.antt =====
-- The theorems on the blob store at concrete inputs.
use alfred_ai.Base.{
  String, ◌≡◌, ◌≢◌, refl, true, false, some, ok, arith, ◌⊎◌, inl, inr, lookup, put_in, remove,
  Bool-cases, eq_iff, List, [], ◌∷◌, ◌==◌, if◌then◌else◌,
}
use alfred_ai.Channels.Blobs.{
  Bytes, BlobFile, BlobMetadata, BlobStore, is_blob_id, hex_text, is_over_cap, put, get, BlobCall,
  puts, gets, asks, loses, take_calls,
}
use alfred_ai.Channels.Blobs.Sound.{IsSound, IsSized, start-IsSound}
use alfred_ai.Channels.Blobs.Calls.RoundTrip.{put-get}
use alfred_ai.Channels.Blobs.Calls.Caps.{IsWithinCaps, take_calls-IsWithinCaps}

abbrev zeros : String
zeros = "0000000000000000000000000000000000000000000000000000000000000000"

abbrev ones : String
ones = "1111111111111111111111111111111111111111111111111111111111111111"

abbrev twos : String
twos = "2222222222222222222222222222222222222222222222222222222222222222"

abbrev sample_digest : Bytes → String
sample_digest [] = zeros
sample_digest (b ∷ bs) = if b == 1 then ones else twos

sample_digest_hex : (b : Bytes) → is_blob_id (sample_digest b) ≡ true
unfolding hex_text
sample_digest_hex [] = refl
sample_digest_hex (b ∷ bs) = elim (Bool-cases (b == 1)) [
  | inl one ↦ rw one refl
  | inr other ↦ rw other refl
]

abbrev plain_trim : String → String
plain_trim s = s

png_typed : ◌≢◌ {A = String} "image/png" ""
png_typed e = ground (arith, eq_iff "image/png" "")

abbrev new_store : BlobStore
new_store = record {
  files = (zeros, record { bytes = []; modified_at = 3 }) ∷ [];
  sidecars = [];
  index = [];
  initialized = false;
}

new_store-IsSound : IsSound 4 2 new_store
unfolding lookup
new_store-IsSound = start-IsSound 4 2 new_store refl refl (refl, tt)

put-get_example :
    let stored = put 4 2 sample_digest plain_trim 8 9 (1 ∷ 7 ∷ []) "image/png" new_store in
    (stored.1 ≡ ok ones)
    × ((f : BlobFile) × ((get 4 2 10 ones stored.0).1 ≡ ok f.bytes)
        × (sample_digest f.bytes ≡ ones)
        × ((f.bytes ≡ 1 ∷ 7 ∷ []) ⊎ (lookup ones new_store.files ≡ some f)))
put-get_example =
    put-get 4 2 sample_digest plain_trim sample_digest_hex 8 9 10 (1 ∷ 7 ∷ []) "image/png" new_store
      png_typed (inr (omega arith)) new_store-IsSound

abbrev calls : List BlobCall
calls =
    puts 8 9 (1 ∷ 7 ∷ []) "image/png"
    ∷ gets 10 zeros
    ∷ puts 11 12 (2 ∷ 7 ∷ []) "image/png"
    ∷ loses ones
    ∷ asks 13 ones
    ∷ []

take_calls-IsWithinCaps_example :
    let after = take_calls 4 2 sample_digest plain_trim new_store calls in
    IsWithinCaps 4 2 after.index × IsSized after.files after.index
unfolding take_calls put_in lookup remove
take_calls-IsWithinCaps_example =
    take_calls-IsWithinCaps 4 2 sample_digest plain_trim new_store calls new_store-IsSound refl

abbrev old_metadata : BlobMetadata
old_metadata = record { mime = "text/plain"; size = 0; last_access_at = 1 }

abbrev recent_metadata : BlobMetadata
recent_metadata = record { mime = "text/plain"; size = 2; last_access_at = 5 }

abbrev full_store : BlobStore
full_store = record {
  files =
      (zeros, record { bytes = []; modified_at = 3 })
      ∷ (ones, record { bytes = 1 ∷ 7 ∷ []; modified_at = 3 })
      ∷ [];
  sidecars = [];
  index = (zeros, old_metadata) ∷ (ones, recent_metadata) ∷ [];
  initialized = true;
}

full_store-IsSound : IsSound 4 2 full_store
unfolding lookup is_over_cap
full_store-IsSound = record {
  files_once = (refl, (refl, tt));
  index_once = (refl, (refl, tt));
  sized = λ id m f e e'. ground (arith, eq_iff zeros id, eq_iff ones id);
  fits = λ h. refl;
}
