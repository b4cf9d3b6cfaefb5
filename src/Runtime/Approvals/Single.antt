-- ===== src/Runtime/Approvals/Single.antt =====
-- Each approval is for one use: along any sequence of calls, uses do not outnumber approvals.
use alfred_ai.Base.{
  ℕ, ◌+◌, ◌≤◌, String, ◌≡◌, refl, ◌∙◌, sym, ap, ◌≢◌, Bool, true, false, ◌&&◌, Option, none, some,
  List, [], ◌∷◌, arith, inl, inr, Bool-cases, Option-cases, ltb, find, filter, str_eq, eq_iff,
  defined,
}
use alfred_ai.Runtime.Approvals.{
  PendingApproval, ApprovalState, entry, remove, put, prune, approval_key, request, approve, reject,
  consume, is_requested, ApprovalCall, requests, approves, rejects, consumes, clears, call,
}

abbrev mark : Bool → ℕ
mark true = 1
mark false = 0

mark-le : (a b : Bool) → (a ≡ true → b ≡ true) → mark a ≤ mark b
mark-le true true h = omega arith
mark-le true false h = let no : false ≡ true = h refl in cc
mark-le false true h = omega arith
mark-le false false h = omega arith

module _ {ℓ} {A : Type ℓ} where
  entry-filter :
      (p : String × A → Bool) (key : String) (es : List (String × A))
      → defined (entry key (filter p es)) ≡ true
      → defined (entry key es) ≡ true
  unfolding entry filter
  entry-filter p key [] h = h
  entry-filter p key (e ∷ es) h = elim (Bool-cases (str_eq e.0 key)) [
    | inl hit ↦ rw hit refl
    | inr miss ↦ rw miss (
        entry-filter p key es
          (elim (Bool-cases (p e)) [ inl y ↦ rw (y, miss) at h | inr n ↦ rw n at h ]))
  ]

  entry-remove : (key : String) (es : List (String × A)) → entry key (remove key es) ≡ none
  unfolding entry remove
  entry-remove key [] = refl
  entry-remove key (e ∷ es) = elim (Bool-cases (str_eq e.0 key)) [
    | inl hit ↦ rw hit (entry-remove key es)
    | inr miss ↦ rw (miss, miss) (entry-remove key es)
  ]

  entry-put_ne :
      (key other : String) (a : A) (es : List (String × A))
      → other ≢ key
      → entry key (put other a es) ≡ entry key es
  unfolding entry put
  entry-put_ne key other a [] ne =
      let miss : str_eq other key ≡ false = ground (arith, eq_iff other key) in rw miss refl
  entry-put_ne key other a (e ∷ es) ne = elim (Bool-cases (str_eq e.0 other)) [
    | inl hit ↦
        let same : e.0 ≡ other = ground (arith, eq_iff e.0 other) in
        let miss : str_eq other key ≡ false = ground (arith, eq_iff other key) in
        rw (hit, same, miss) refl
    | inr o ↦ elim (Bool-cases (str_eq e.0 key)) [
      | inl mine ↦ rw (o, mine) refl
      | inr n ↦ rw (o, n) (entry-put_ne key other a es ne)
    ]
  ]

entry-remove_ne :
    (key other : String) (es : List (String × ℕ))
    → other ≢ key
    → entry key (remove other es) ≡ entry key es
unfolding entry remove
entry-remove_ne key other [] ne = refl
entry-remove_ne key other (e ∷ es) ne = elim (Bool-cases (str_eq e.0 other)) [
  | inl hit ↦
      let same : e.0 ≡ other = ground (arith, eq_iff e.0 other) in
      let miss : str_eq other key ≡ false = ground (arith, eq_iff other key) in
      rw (hit, same, miss) (entry-remove_ne key other es ne)
  | inr o ↦ elim (Bool-cases (str_eq e.0 key)) [
    | inl mine ↦ rw (o, mine) refl
    | inr n ↦ rw (o, n) (entry-remove_ne key other es ne)
  ]
]

-- Whether an approval with this key is there, used or not yet pruned.
abbrev pub has : String → ApprovalState → ℕ
has key s = mark (defined (entry key s.approved))

abbrev approves_key : String → String → Option PendingApproval → Bool
approves_key key session_id none = false
approves_key key session_id (some p) = str_eq (approval_key session_id p.action_key) key

-- Whether the call approves an action of this key, and whether it uses one up.
abbrev pub grants_key : String → ApprovalState → ℕ × ApprovalCall → ℕ
grants_key key s (now, approves session_id token) = mark (
    defined (approve now session_id token s).1
    && approves_key key session_id (entry token (prune now s).pending))
grants_key key s (now, requests ttl_ms token session_id action_key description) = 0
grants_key key s (now, rejects session_id token) = 0
grants_key key s (now, consumes session_id action_key) = 0
grants_key key s (now, clears) = 0

abbrev pub uses_key : String → ApprovalState → ℕ × ApprovalCall → ℕ
uses_key key s (now, consumes session_id action_key) =
    mark
      ((consume now session_id action_key s).1 && str_eq (approval_key session_id action_key) key)
uses_key key s (now, requests ttl_ms token session_id action_key description) = 0
uses_key key s (now, approves session_id token) = 0
uses_key key s (now, rejects session_id token) = 0
uses_key key s (now, clears) = 0

has-prune : (key : String) (now : ℕ) (s : ApprovalState) → has key (prune now s) ≤ has key s
unfolding prune
has-prune key now s = mark-le _ _ (entry-filter (λ e. ltb now e.1) key s.approved)

request-has :
    (key : String) (ttl_ms now : ℕ) (token session_id action_key description : String)
    (s : ApprovalState)
    → has key (request ttl_ms now token session_id action_key description s).0
      ≡ has key (prune now s)
unfolding request
request-has key ttl_ms now token session_id action_key description s =
    elim (Option-cases (find (is_requested session_id action_key) (prune now s).pending)) [
      | inl new ↦ rw (new, request) refl
      | inr (e, there) ↦ rw (there, request) refl
    ]

reject-has :
    (key : String) (now : ℕ) (session_id token : String) (s : ApprovalState)
    → has key (reject now session_id token s).0 ≡ has key (prune now s)
unfolding reject
reject-has key now session_id token s = elim (Option-cases (entry token (prune now s).pending)) [
  | inl gone ↦ rw (gone, reject) refl
  | inr (p, there) ↦ elim (Bool-cases (str_eq p.session_id session_id)) [
    | inl mine ↦ rw (there, mine, reject) refl
    | inr other ↦ rw (there, other, reject) refl
  ]
]

mark-le_one : (b : Bool) → mark b ≤ 1
mark-le_one true = omega arith
mark-le_one false = omega arith

approve-has :
    (key : String) (now : ℕ) (session_id token : String) (s : ApprovalState)
    → has key (approve now session_id token s).0
      ≤ grants_key key s (now, approves session_id token) + has key (prune now s)
unfolding approve
approve-has key now session_id token s = elim (Option-cases (entry token (prune now s).pending)) [
  | inl gone ↦ rw (gone, approve) (omega arith)
  | inr (p, there) ↦ elim (Bool-cases (str_eq p.session_id session_id)) [
    | inr other ↦ rw (there, other, approve) (omega arith)
    | inl mine ↦ elim (Bool-cases (str_eq (approval_key session_id p.action_key) key)) [
      | inl hit ↦
          rw (there, mine, hit, approve)
            (omega (
              arith,
              mark-le_one (
                  defined (
                    entry key (
                      put (approval_key session_id p.action_key) p.expires_at
                        (prune now s).approved))),
            ))
      | inr miss ↦
          let apart : approval_key session_id p.action_key ≢ key =
            ground (arith, eq_iff (approval_key session_id p.action_key) key) in
          rw
            (
              there,
              mine,
              miss,
              approve,
              entry-put_ne key (approval_key session_id p.action_key) p.expires_at
                  (prune now s).approved apart,
            )
            (omega arith)
    ]
  ]
]

consume-has :
    (key : String) (now : ℕ) (session_id action_key : String) (s : ApprovalState)
    → uses_key key s (now, consumes session_id action_key)
        + has key (consume now session_id action_key s).0
      ≤ has key (prune now s)
unfolding consume
consume-has key now session_id action_key s =
    elim (Bool-cases
      (defined (entry (approval_key session_id action_key) (prune now s).approved))) [
        | inr gone ↦ rw (gone, consume) (omega arith)
        | inl there ↦ elim (Bool-cases (str_eq (approval_key session_id action_key) key)) [
          | inl hit ↦
              let same : approval_key session_id action_key ≡ key =
                ground (arith, eq_iff (approval_key session_id action_key) key) in
              let used : mark (defined (entry key (remove key (prune now s).approved))) ≡ 0 =
                ap (λ e. mark (defined e)) (entry-remove key (prune now s).approved) in
              let had : mark (defined (entry key (prune now s).approved)) ≡ 1 =
                ap (λ k. mark (defined (entry k (prune now s).approved))) (sym same)
                ∙ ap mark there in
              rw (there, hit, consume, same) (omega (arith, used, had))
          | inr miss ↦
              let apart : approval_key session_id action_key ≢ key =
                ground (arith, eq_iff (approval_key session_id action_key) key) in
              rw
                (
                  there,
                  miss,
                  consume,
                  entry-remove_ne key (approval_key session_id action_key) (prune now s).approved
                      apart,
                )
                (omega arith)
        ]
      ]

call-has :
    (key : String) (s : ApprovalState) (c : ℕ × ApprovalCall)
    → uses_key key s c + has key (call s c) ≤ grants_key key s c + has key s
unfolding call
call-has key s (now, requests ttl_ms token session_id action_key description) = omega (
  arith,
  request-has key ttl_ms now token session_id action_key description s,
  has-prune key now s,
)
call-has key s (now, approves session_id token) =
    omega (arith, approve-has key now session_id token s, has-prune key now s)
call-has key s (now, rejects session_id token) =
    omega (arith, reject-has key now session_id token s, has-prune key now s)
call-has key s (now, consumes session_id action_key) =
    omega (arith, consume-has key now session_id action_key s, has-prune key now s)
call-has key s (now, clears) = omega arith

-- Over a sequence of calls: the uses of a key, and the approvals of it.
abbrev pub uses : String → ApprovalState → List (ℕ × ApprovalCall) → ℕ
uses key s [] = 0
uses key s (c ∷ cs) = uses_key key s c + uses key (call s c) cs

abbrev pub grants : String → ApprovalState → List (ℕ × ApprovalCall) → ℕ
grants key s [] = 0
grants key s (c ∷ cs) = grants_key key s c + grants key (call s c) cs

-- Along any sequence of calls, at any times, the uses of an action that `consume` admits are at most
-- the approvals of it that were given, and one more if the store held one at the start.
pub uses-le :
    (key : String) (s : ApprovalState) (cs : List (ℕ × ApprovalCall))
    → uses key s cs ≤ grants key s cs + has key s
uses-le key s [] = omega arith
uses-le key s (c ∷ cs) = omega (arith, uses-le key (call s c) cs, call-has key s c)
