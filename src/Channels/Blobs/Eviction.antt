-- ===== src/Channels/Blobs/Eviction.antt =====
-- The loop of `evictUntilUnderCapLocked`: that it ends, and what it leaves.
use alfred_ai.Base.{
  ℕ, zero, suc, ◌≤◌, ◌<◌, String, ◌≡◌, ◌≢◌, refl, sym, ◌∙◌, true, false, Option, none, some, [],
  ◌∷◌, ok, arith, inl, inr, ◌⊎◌, Bool-cases, Option-cases, eq_iff, str_eq, is_text, length, lookup,
  remove, IsMap, remove-IsMap, lookup-remove_ne, lookup_removed, length-remove-lt, subst,
}
use alfred_ai.Channels.Blobs.{
  BlobMetadata, BlobFile, Index, BlobStore, pick_least_recently_used, evict_one, is_over_cap,
  evict_rounds,
}
use alfred_ai.Channels.Blobs.Oldest.{pick_from-IsOldest, pick_from-none}

picked_lem :
    (protected : Option String) (index : Index) (v : String × ℕ)
    → IsMap index
    → pick_least_recently_used index protected ≡ some v
    → (m : BlobMetadata) × (lookup v.0 index ≡ some m)
      × (m.last_access_at ≡ v.1)
      × (is_text protected v.0 ≡ false)
unfolding pick_least_recently_used
picked_lem protected index v u h =
    let oldest = pick_from-IsOldest protected none index v u h in
    elim oldest.among [ inl e ↦ cc | inr found ↦ found ]

one_protected :
    (protected : Option String) (id k : String)
    → is_text protected id ≡ true
    → is_text protected k ≡ true
    → str_eq id k ≢ false
one_protected none id k h h' = ground arith
one_protected (some p) id k h h' = ground (arith, eq_iff p id, eq_iff p k, eq_iff id k)

module _ (max_bytes max_entries : ℕ) where
  -- The rounds of the loop: as long as the index is over a cap, the entry that is picked goes.
  pub data Evicted (protected : Option String) : BlobStore → BlobStore → Type 0 where
    fits :
        {s : BlobStore} → is_over_cap max_bytes max_entries s.index ≡ false → Evicted protected s s
    evicts :
        {s s' : BlobStore} (v : String × ℕ)
        → is_over_cap max_bytes max_entries s.index ≡ true
        → pick_least_recently_used s.index protected ≡ some v
        → Evicted protected (evict_one v.0 s) s'
        → Evicted protected s s'

  -- The protected blob alone is within the cap on bytes.
  abbrev pub FitsAlone : Option String → Index → Type 0
  FitsAlone protected index =
      (id : String) (m : BlobMetadata)
      → is_text protected id ≡ true
      → lookup id index ≡ some m
      → (max_bytes ≡ 0) ⊎ (m.size ≤ max_bytes)

  over_cap-picks :
      (protected : Option String) (index : Index)
      → IsMap index
      → FitsAlone protected index
      → is_over_cap max_bytes max_entries index ≡ true
      → pick_least_recently_used index protected ≢ none
  unfolding is_over_cap pick_least_recently_used lookup
  over_cap-picks protected [] u own over h = ground arith
  over_cap-picks protected ((id, m) ∷ []) u own over h =
      let (start, all) = pick_from-none protected none ((id, m) ∷ []) h in
      let mine = all id m (ground (arith, eq_iff id id)) in
      elim (own id m mine (ground (arith, eq_iff id id))) [
        | inl unbounded ↦ ground arith
        | inr small ↦ ground arith
      ]
  over_cap-picks protected ((id, m) ∷ (k, n) ∷ index) u own over h =
      let (start, all) = pick_from-none protected none ((id, m) ∷ (k, n) ∷ index) h in
      let mine = all id m (ground (arith, eq_iff id id)) in
      elim (Bool-cases (str_eq id k)) [
        | inl hit ↦
            let same : id ≡ k = (eq_iff id k).0 hit in
            let gone : lookup k ((k, n) ∷ index) ≡ none =
              subst (λ j. lookup j ((k, n) ∷ index) ≡ none) same u.0 in
            ground (arith, eq_iff k k)
        | inr miss ↦
            let theirs = all k n (ground (arith, eq_iff k k)) in
            one_protected protected id k mine theirs miss
      ]

  evict_one-FitsAlone :
      (protected : Option String) (victim : String) (index : Index)
      → FitsAlone protected index
      → FitsAlone protected (remove victim index)
  evict_one-FitsAlone protected victim index own id m mine h =
      own id m mine (lookup_removed victim id m index h).1

  pub evict_rounds-Evicted :
      (fuel : ℕ) (protected : Option String) (s : BlobStore)
      → length s.index < fuel
      → IsMap s.index
      → FitsAlone protected s.index
      → (s' : BlobStore) × (evict_rounds max_bytes max_entries fuel protected s ≡ (s', ok tt))
        × Evicted protected s s'
  unfolding evict_rounds
  evict_rounds-Evicted zero protected s enough u own = absurd (omega arith)
  evict_rounds-Evicted (suc fuel) protected s enough u own =
      elim (Bool-cases (is_over_cap max_bytes max_entries s.index)) [
        | inr under ↦ (s, rw (under, evict_rounds) refl, fits under)
        | inl over ↦ elim (Option-cases (pick_least_recently_used s.index protected)) [
          | inl stuck ↦ absurd (over_cap-picks protected s.index u own over stuck)
          | inr (v, picked) ↦
              let (m, found, at, free) = picked_lem protected s.index v u picked in
              let fewer = length-remove-lt v.0 m s.index found in
              let (s', run, rest) =
                evict_rounds-Evicted fuel protected (evict_one v.0 s)
                  (unfold evict_one in omega (arith, enough, fewer))
                  (unfold evict_one in remove-IsMap v.0 s.index u)
                  (unfold evict_one in evict_one-FitsAlone protected v.0 s.index own) in
              (s', rw (over, picked, evict_rounds) run, evicts v over picked rest)
        ]
      ]

  -- What the rounds leave is within the caps.
  pub Evicted-fits :
      {protected : Option String} {s s' : BlobStore}
      → Evicted protected s s'
      → is_over_cap max_bytes max_entries s'.index ≡ false
  Evicted-fits (fits under) = under
  Evicted-fits (evicts v over picked rest) = Evicted-fits rest

  pub Evicted-IsMap :
      {protected : Option String} {s s' : BlobStore}
      → Evicted protected s s'
      → IsMap s.index
      → IsMap s'.index
  unfolding evict_one
  Evicted-IsMap (fits under) u = u
  Evicted-IsMap (evicts {s} v over picked rest) u = Evicted-IsMap rest (remove-IsMap v.0 s.index u)

  pub Evicted-files_IsMap :
      {protected : Option String} {s s' : BlobStore}
      → Evicted protected s s'
      → IsMap s.files
      → IsMap s'.files
  unfolding evict_one
  Evicted-files_IsMap (fits under) u = u
  Evicted-files_IsMap (evicts {s} v over picked rest) u =
      Evicted-files_IsMap rest (remove-IsMap v.0 s.files u)

  pub Evicted-initialized :
      {protected : Option String} {s s' : BlobStore}
      → Evicted protected s s'
      → s'.initialized ≡ s.initialized
  unfolding evict_one
  Evicted-initialized (fits under) = refl
  Evicted-initialized (evicts v over picked rest) = Evicted-initialized rest

  -- What is left was there before, with the same file.
  pub Evicted-left :
      {protected : Option String} {s s' : BlobStore} (k : String) (m : BlobMetadata)
      → Evicted protected s s'
      → lookup k s'.index ≡ some m
      → (lookup k s.index ≡ some m) × (lookup k s'.files ≡ lookup k s.files)
  unfolding evict_one
  Evicted-left k m (fits under) h = (h, refl)
  Evicted-left k m (evicts {s} v over picked rest) h =
      let (there, file) = Evicted-left k m rest h in
      let (apart, found) = lookup_removed v.0 k m s.index there in
      (found, file ∙ lookup-remove_ne v.0 k s.files apart)

  pub Evicted-files :
      {protected : Option String} {s s' : BlobStore} (k : String) (f : BlobFile)
      → Evicted protected s s'
      → lookup k s'.files ≡ some f
      → lookup k s.files ≡ some f
  unfolding evict_one
  Evicted-files k f (fits under) h = h
  Evicted-files k f (evicts {s} v over picked rest) h =
      (lookup_removed v.0 k f s.files (Evicted-files k f rest h)).1

  -- The protected blob stays.
  pub Evicted-keeps :
      {id : String} {s s' : BlobStore}
      → Evicted (some id) s s'
      → IsMap s.index
      → (lookup id s'.index ≡ lookup id s.index) × (lookup id s'.files ≡ lookup id s.files)
  unfolding evict_one
  Evicted-keeps (fits under) u = (refl, refl)
  Evicted-keeps {id} (evicts {s} v over picked rest) u =
      let (m, found, at, free) = picked_lem (some id) s.index v u picked in
      let apart : v.0 ≢ id = λ x. ground (arith, eq_iff id v.0) in
      let (index, files) = Evicted-keeps rest (remove-IsMap v.0 s.index u) in
      (index ∙ lookup-remove_ne v.0 id s.index apart, files ∙ lookup-remove_ne v.0 id s.files apart)

  -- A blob that is evicted was used no later than any that stays and is not protected.
  pub Evicted-oldest :
      {protected : Option String} {s s' : BlobStore} (k j : String) (m n : BlobMetadata)
      → Evicted protected s s'
      → IsMap s.index
      → lookup k s.index ≡ some m
      → lookup k s'.index ≡ none
      → lookup j s'.index ≡ some n
      → is_text protected j ≡ false
      → m.last_access_at ≤ n.last_access_at
  unfolding evict_one pick_least_recently_used
  Evicted-oldest k j m n (fits under) u there gone stays free = cc
  Evicted-oldest {protected} k j m n (evicts {s} v over picked rest) u there gone stays free =
      elim (Bool-cases (str_eq v.0 k)) [
        | inl hit ↦
            let same : v.0 ≡ k = (eq_iff v.0 k).0 hit in
            let (o, found, at, other) = picked_lem protected s.index v u picked in
            let own : lookup v.0 s.index ≡ some m =
              subst (λ x. lookup x s.index ≡ some m) (sym same) there in
            let one : o ≡ m = cc in
            let kept = Evicted-left j n (evicts v over picked rest) stays in
            let le =
              (pick_from-IsOldest protected none s.index v u picked).oldest j n kept.0 free in
            rw (← one) (omega (arith, le, at))
        | inr miss ↦
            let apart : v.0 ≢ k = λ x. ground (arith, eq_iff v.0 k) in
            Evicted-oldest k j m n rest (remove-IsMap v.0 s.index u)
              (lookup-remove_ne v.0 k s.index apart ∙ there) gone stays free
      ]
