-- ===== src/Channels/Blobs.antt =====
-- src/channels/blobStore.ts: `BlobStore`, which keeps blobs under their digest and evicts the least
-- recently used ones.
--
-- `digest` is the lowercase hexadecimal SHA-256 of node:crypto and `trim` is `String.prototype.trim`.
-- An operation runs to its end before the next one starts, as `withLock` has it. The files of the
-- directory are a map from names, without directories; a sidecar that is absent or malformed is not
-- in `sidecars`. The clock's value is an argument, and `modified` is the time that the file system
-- gives to a file that the operation writes.
pub mod Oldest
pub mod Eviction
pub mod Sound
pub mod Calls
use alfred_ai.Base.{
  ℕ, zero, suc, ◌+◌, ◌*◌, String, ◌≡◌, Bool, true, false, not, ◌&&◌, ◌||◌, Option, none, some, List,
  [], ◌∷◌, Result, ok, err, ltb, leb, ◌==◌, if◌then◌else◌, is_text, length, lookup, put_in, remove,
  str_eq,
}
use Prim.Native.Char.{code}

abbrev pub Bytes : Type 0
Bytes = List ℕ

abbrev pub default_max_bytes : ℕ
default_max_bytes = 2 * 1024 * 1024 * 1024

abbrev pub default_max_entries : ℕ
default_max_entries = 10000

pub record BlobMetadata : Type 0 where
  pub mime : String
  pub size : ℕ
  pub last_access_at : ℕ

pub record BlobFile : Type 0 where
  pub bytes : Bytes
  pub modified_at : ℕ

abbrev pub Index : Type 0
Index = List (String × BlobMetadata)

pub record BlobStore : Type 0 where
  pub files : List (String × BlobFile)
  pub sidecars : Index
  pub index : Index
  pub initialized : Bool

pub data BlobError : Type 0 where
  blob_not_found invalid_mime invalid_blob_id cannot_evict out_of_fuel : BlobError
  blob_too_large : (size max_bytes : ℕ) → BlobError

-- `/^[a-f0-9]{64}$/`
abbrev pub is_hex : ℕ → Bool
is_hex c = (leb 97 c && leb c 102) || (leb 48 c && leb c 57)

unfoldable pub hex_text : ℕ → String → Bool
hex_text zero String.[] = true
hex_text zero (String.◌∷◌ c s) = false
hex_text (suc n) String.[] = false
hex_text (suc n) (String.◌∷◌ c s) = let rest = hex_text n s in is_hex (code c) && rest

abbrev pub is_blob_id : String → Bool
is_blob_id = hex_text 64

abbrev pub total_bytes : Index → ℕ
total_bytes [] = 0
total_bytes ((id, m) ∷ index) = m.size + total_bytes index

-- `pickLeastRecentlyUsed`: the first of the entries that were used least recently.
unfoldable pub better :
    Option String → Option (String × ℕ) → String × BlobMetadata → Option (String × ℕ)
better protected none (id, m) = if is_text protected id then none else some (id, m.last_access_at)
better protected (some (victim, oldest_at)) (id, m) =
    if is_text protected id
    then some (victim, oldest_at)
    else if ltb m.last_access_at oldest_at
    then some (id, m.last_access_at)
    else some (victim, oldest_at)

unfoldable pub pick_from : Option String → Option (String × ℕ) → Index → Option (String × ℕ)
unfolding better
pick_from protected best [] = best
pick_from protected best (e ∷ index) = pick_from protected (better protected best e) index

unfoldable pub pick_least_recently_used : Index → Option String → Option (String × ℕ)
unfolding pick_from
pick_least_recently_used index protected = pick_from protected none index

-- The body of the loop of `evictUntilUnderCapLocked`; a file that is not there is no error.
unfoldable pub evict_one : String → BlobStore → BlobStore
evict_one victim s = record s {
  files = remove victim s.files;
  sidecars = remove victim s.sidecars;
  index = remove victim s.index;
}

abbrev pub new_metadata : ℕ → String → Bytes → BlobMetadata
new_metadata now mime bytes = record { mime = mime; size = length bytes; last_access_at = now }

abbrev pub new_file : ℕ → Bytes → BlobFile
new_file modified bytes = record { bytes = bytes; modified_at = modified }

-- A call of the store, or a file of the directory that something else removes.
pub data BlobCall : Type 0 where
  puts : (now modified : ℕ) (bytes : Bytes) (mime : String) → BlobCall
  gets : (now : ℕ) (id : String) → BlobCall
  asks : (now : ℕ) (id : String) → BlobCall
  loses : (name : String) → BlobCall

module _ (max_bytes max_entries : ℕ) where
  unfoldable pub is_over_cap : Index → Bool
  is_over_cap index =
      if ltb 0 max_entries && ltb max_entries (length index)
      then true
      else if leb max_bytes 0
      then false
      else ltb max_bytes (total_bytes index)

  -- `evictUntilUnderCapLocked`, with at most `fuel` rounds.
  unfoldable pub evict_rounds :
      ℕ → Option String → BlobStore → BlobStore × Result BlobError (Unit {0})
  unfolding is_over_cap pick_least_recently_used evict_one
  evict_rounds zero protected s = (s, err out_of_fuel)
  evict_rounds (suc fuel) protected s = elim (is_over_cap s.index) [
    | false ↦ (s, ok tt)
    | true ↦ elim (pick_least_recently_used s.index protected) [
      | none ↦ (s, err cannot_evict)
      | some victim ↦ evict_rounds fuel protected (evict_one victim.0 s)
    ]
  ]

  -- Each round takes an entry out of the index.
  unfoldable pub evict_until_under_cap :
      Option String → BlobStore → BlobStore × Result BlobError (Unit {0})
  unfolding evict_rounds
  evict_until_under_cap protected s = evict_rounds (suc (length s.index)) protected s

  -- The entry of a file that `initializeLocked` finds.
  abbrev pub found_metadata : Option BlobMetadata → BlobFile → BlobMetadata
  found_metadata none f = record {
    mime = "application/octet-stream";
    size = length f.bytes;
    last_access_at = f.modified_at;
  }
  found_metadata (some m) f = record m { size = length f.bytes }

  unfoldable pub index_files : List (String × BlobFile) → Index → Index → Index
  unfolding hex_text
  index_files [] sidecars index = index
  index_files ((name, f) ∷ files) sidecars index = index_files files sidecars (
      if is_blob_id name
      then put_in name (found_metadata (lookup name sidecars) f) index
      else index)

  abbrev pub initialized_if_ok :
      BlobStore × Result BlobError (Unit {0}) → BlobStore × Result BlobError (Unit {0})
  initialized_if_ok (s, ok u) = (record s { initialized = true }, ok u)
  initialized_if_ok (s, err e) = (s, err e)

  -- `initializeLocked`
  unfoldable pub initialize : BlobStore → BlobStore × Result BlobError (Unit {0})
  unfolding evict_until_under_cap index_files
  initialize s = elim s.initialized [
    | true ↦ (s, ok tt)
    | false ↦
        initialized_if_ok
          (evict_until_under_cap none (record s { index = index_files s.files s.sidecars s.index }))
  ]

  -- What an operation does once the store is initialized.
  abbrev pub after_initialize :
      {A : Type 0}
      → (BlobStore → BlobStore × Result BlobError A)
      → BlobStore × Result BlobError (Unit {0})
      → BlobStore × Result BlobError A
  after_initialize operation (s, err e) = (s, err e)
  after_initialize operation (s, ok u) = operation s

  -- `writeMetadataLocked`
  abbrev pub write_metadata : String → BlobMetadata → BlobStore → BlobStore
  write_metadata id m s = record s { sidecars = put_in id m s.sidecars }

  -- A change of the object that `index.get` returned, and `writeMetadataLocked` of it.
  abbrev pub set_metadata : String → BlobMetadata → BlobStore → BlobStore
  set_metadata id m s = write_metadata id m (record s { index = put_in id m s.index })

  module _ (digest : Bytes → String) (trim : String → String) where
    unfoldable pub file_matches_digest : String → BlobStore → Bool
    file_matches_digest id s = elim (lookup id s.files) [
      | none ↦ false
      | some f ↦ str_eq (digest f.bytes) id
    ]

    -- A blob that is there already: it becomes the most recently used one.
    abbrev pub touch_existing : ℕ → String → String → BlobMetadata → BlobStore → BlobStore
    touch_existing now mime id m = set_metadata id (record m {
      last_access_at = now;
      mime = if str_eq m.mime "application/octet-stream" then mime else m.mime;
    })

    abbrev pub written_blob : ℕ → ℕ → Bytes → String → String → BlobStore → BlobStore
    written_blob now modified bytes mime id s =
        set_metadata id (new_metadata now mime bytes) (record s {
          index = remove id s.index;
          files = put_in id (new_file modified bytes) s.files;
        })

    abbrev pub evicted_put :
        String → BlobStore × Result BlobError (Unit {0}) → BlobStore × Result BlobError String
    evicted_put id (s, ok u) = (s, ok id)
    evicted_put id (s, err e) = (s, err e)

    unfoldable pub write_blob :
        ℕ → ℕ → Bytes → String → String → BlobStore → BlobStore × Result BlobError String
    unfolding evict_until_under_cap
    write_blob now modified bytes mime id s =
        evicted_put id (evict_until_under_cap (some id) (written_blob now modified bytes mime id s))

    -- `put` of a blob with this id, in a store that is initialized.
    unfoldable pub put_locked :
        ℕ → ℕ → Bytes → String → String → BlobStore → BlobStore × Result BlobError String
    unfolding file_matches_digest write_blob
    put_locked now modified bytes mime id s = elim (lookup id s.index) [
      | none ↦ write_blob now modified bytes mime id s
      | some existing ↦ elim (file_matches_digest id s) [
        | true ↦ (touch_existing now mime id existing s, ok id)
        | false ↦ write_blob now modified bytes mime id s
      ]
    ]

    unfoldable pub put : ℕ → ℕ → Bytes → String → BlobStore → BlobStore × Result BlobError String
    unfolding put_locked initialize
    put now modified bytes mime s =
        if str_eq (trim mime) ""
        then (s, err invalid_mime)
        else if ltb 0 max_bytes && ltb max_bytes (length bytes)
        then (s, err (blob_too_large (length bytes) max_bytes))
        else after_initialize (put_locked now modified bytes mime (digest bytes)) (initialize s)

  -- A blob whose file is gone leaves the index.
  abbrev pub forget_blob : String → BlobStore → BlobStore
  forget_blob id s = record s { index = remove id s.index; sidecars = remove id s.sidecars }

  abbrev pub accessed : ℕ → BlobMetadata → BlobMetadata
  accessed now m = record m { last_access_at = now }

  -- What `get` and `getMetadata` do alike: `read` is what they return of the file and the metadata.
  unfoldable pub read_locked :
      {A : Type 0}
      → (BlobFile → BlobMetadata → A)
      → ℕ
      → String
      → BlobStore
      → BlobStore × Result BlobError A
  read_locked read now id s = elim (lookup id s.index) [
    | none ↦ (s, err blob_not_found)
    | some m ↦ elim (lookup id s.files) [
      | none ↦ (forget_blob id s, err blob_not_found)
      | some f ↦ (set_metadata id (accessed now m) s, ok (read f m))
    ]
  ]

  unfoldable pub get : ℕ → String → BlobStore → BlobStore × Result BlobError Bytes
  unfolding hex_text read_locked initialize
  get now id s =
      if is_blob_id id
      then after_initialize (read_locked (λ f m. f.bytes) now id) (initialize s)
      else (s, err invalid_blob_id)

  unfoldable pub get_metadata : ℕ → String → BlobStore → BlobStore × Result BlobError (String × ℕ)
  unfolding hex_text read_locked initialize
  get_metadata now id s =
      if is_blob_id id
      then after_initialize (read_locked (λ f m. (m.mime, m.size)) now id) (initialize s)
      else (s, err invalid_blob_id)

  unfoldable pub take_call : (Bytes → String) → (String → String) → BlobStore → BlobCall → BlobStore
  unfolding put get get_metadata
  take_call digest trim s (puts now modified bytes mime) =
      (put digest trim now modified bytes mime s).0
  take_call digest trim s (gets now id) = (get now id s).0
  take_call digest trim s (asks now id) = (get_metadata now id s).0
  take_call digest trim s (loses name) = record s { files = remove name s.files }

  unfoldable pub take_calls :
      (Bytes → String) → (String → String) → BlobStore → List BlobCall → BlobStore
  unfolding take_call
  take_calls digest trim s [] = s
  take_calls digest trim s (c ∷ cs) = take_calls digest trim (take_call digest trim s c) cs
