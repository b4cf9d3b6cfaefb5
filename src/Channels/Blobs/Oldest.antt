-- ===== src/Channels/Blobs/Oldest.antt =====
-- `pickLeastRecentlyUsed`: what it picks, and when it picks nothing.
use alfred_ai.Base.{
  ℕ, ◌≤◌, String, ◌≡◌, ◌≢◌, true, false, Option, none, some, [], ◌∷◌, arith, inl, inr, ◌⊎◌,
  Bool-cases, eq_iff, str_eq, is_text, ltb, lookup, IsMap, subst,
}
use alfred_ai.Channels.Blobs.{BlobMetadata, Index, better, pick_from}

-- The best entry so far, and the one that `pick_from` returns from it: it is one of the entries or
-- that best one, it is not protected, and no entry that is not protected was used before it.
pub record IsOldest (protected : Option String) (index : Index) (best : Option (String × ℕ))
    (v : String × ℕ) : Type 0 where
  pub among :
      (best ≡ some v)
      ⊎ ((m : BlobMetadata) × (lookup v.0 index ≡ some m)
          × (m.last_access_at ≡ v.1)
          × (is_text protected v.0 ≡ false))
  pub oldest :
      (k : String) (m : BlobMetadata)
      → lookup k index ≡ some m
      → is_text protected k ≡ false
      → v.1 ≤ m.last_access_at
  pub before : (b : String × ℕ) → best ≡ some b → v.1 ≤ b.1

better-some :
    (protected : Option String) (best : Option (String × ℕ)) (id : String) (n : BlobMetadata)
    (v : String × ℕ)
    → better protected best (id, n) ≡ some v
    → (best ≡ some v) ⊎ ((id ≡ v.0) × (n.last_access_at ≡ v.1) × (is_text protected id ≡ false))
unfolding better
better-some protected none id n v h = ground arith
better-some protected (some b) id n v h = ground arith

better-le :
    (protected : Option String) (best : Option (String × ℕ)) (id : String) (n : BlobMetadata)
    → is_text protected id ≡ false
    → (b : String × ℕ) × (better protected best (id, n) ≡ some b) × (b.1 ≤ n.last_access_at)
unfolding better
better-le protected none id n h = ((id, n.last_access_at), ground arith, omega arith)
better-le protected (some (k, at)) id n h = elim (Bool-cases (ltb n.last_access_at at)) [
  | inl older ↦ ((id, n.last_access_at), ground arith, omega arith)
  | inr newer ↦ ((k, at), ground arith, ground arith)
]

better-before :
    (protected : Option String) (b : String × ℕ) (id : String) (n : BlobMetadata)
    → (b' : String × ℕ) × (better protected (some b) (id, n) ≡ some b') × (b'.1 ≤ b.1)
unfolding better
better-before protected (k, at) id n = elim (Bool-cases (is_text protected id)) [
  | inl own ↦ ((k, at), ground arith, omega arith)
  | inr free ↦ elim (Bool-cases (ltb n.last_access_at at)) [
    | inl older ↦ ((id, n.last_access_at), ground arith, ground arith)
    | inr newer ↦ ((k, at), ground arith, omega arith)
  ]
]

pub pick_from-IsOldest :
    (protected : Option String) (best : Option (String × ℕ)) (index : Index) (v : String × ℕ)
    → IsMap index
    → pick_from protected best index ≡ some v
    → IsOldest protected index best v
unfolding pick_from lookup
pick_from-IsOldest protected best [] v u h = record {
  among = inl h;
  oldest = λ k m e. cc;
  before = λ b e. ground arith;
}
pick_from-IsOldest protected best ((id, n) ∷ index) v u h =
    let rest = pick_from-IsOldest protected (better protected best (id, n)) index v u.1 h in
    record {
      among = elim rest.among [
        | inl e ↦ elim (better-some protected best id n v e) [
          | inl old ↦ inl old
          | inr (named, at, free) ↦ inr (n, ground (arith, eq_iff id v.0), at, ground arith)
        ]
        | inr (m, found, at, free) ↦
            let apart : id ≢ v.0 = λ x.
              let gone : lookup v.0 index ≡ none = subst (λ j. lookup j index ≡ none) x u.0 in cc in
            inr (m, ground (arith, eq_iff id v.0), at, free)
      ];
      oldest = λ k m e free. elim (Bool-cases (str_eq id k)) [
        | inl hit ↦
            let same : id ≡ k = (eq_iff id k).0 hit in
            let own : is_text protected id ≡ false = rw same free in
            let (b, e', le) = better-le protected best id n own in
            let one : n ≡ m = ground arith in let le' = rest.before b e' in rw (← one) (omega arith)
        | inr miss ↦ rest.oldest k m (ground arith) free
      ];
      before = λ b e.
          let (b', e', le) = better-before protected b id n in
          let le' = rest.before b' (rw e e') in omega arith;
    }

-- Where nothing is picked, every entry is the protected one.
better-none :
    (protected : Option String) (best : Option (String × ℕ)) (id : String) (n : BlobMetadata)
    → better protected best (id, n) ≡ none
    → (best ≡ none) × (is_text protected id ≡ true)
unfolding better
better-none protected none id n h = ground arith
better-none protected (some b) id n h = ground arith

pub pick_from-none :
    (protected : Option String) (best : Option (String × ℕ)) (index : Index)
    → pick_from protected best index ≡ none
    → (best ≡ none)
      × ((k : String) (m : BlobMetadata) → lookup k index ≡ some m → is_text protected k ≡ true)
unfolding pick_from lookup
pick_from-none protected best [] h = (h, λ k m e. cc)
pick_from-none protected best ((id, n) ∷ index) h =
    let (none_yet, rest) = pick_from-none protected (better protected best (id, n)) index h in
    let (before, own) = better-none protected best id n none_yet in
    (
      before,
      λ k m e. elim (Bool-cases (str_eq id k)) [
        | inl hit ↦ let same : id ≡ k = (eq_iff id k).0 hit in rw (← same) own
        | inr miss ↦ rest k m (ground arith)
      ],
    )
