-- ===== src/Runtime/Approvals.antt =====
-- src/runtime/toolApprovalStore.ts: `ToolApprovalStore`, the approvals that tools with effects wait for.
--
-- A `Map` is the list of its entries in the order of insertion. The key of an action, a digest, and
-- the random token of a request are arguments.
pub mod Single
use Prim.Native.String.{◌++◌ as append_text}
use alfred_ai.Base.{
  ℕ, ◌+◌, String, Bool, true, false, not, ◌&&◌, Option, none, some, List, [], ◌∷◌, ◌++◌, ltb,
  if◌then◌else◌, find, filter, str_eq, defined,
}

pub record PendingApproval : Type 0 where
  pub session_id : String
  pub action_key : String
  pub description : String
  pub expires_at : ℕ

pub record ApprovalRequest : Type 0 where
  pub token : String
  pub description : String
  pub expires_at : ℕ

pub record ApprovalState : Type 0 where
  pub pending : List (String × PendingApproval)
  pub approved : List (String × ℕ)

abbrev pub default_ttl_ms : ℕ
default_ttl_ms = 600000

-- `get`, `delete` and `set` of a `Map`.
unfoldable pub entry {ℓ} : {A : Type ℓ} → String → List (String × A) → Option A
entry key [] = none
entry key (e ∷ es) = if str_eq e.0 key then some e.1 else entry key es

unfoldable pub remove {ℓ} : {A : Type ℓ} → String → List (String × A) → List (String × A)
remove key [] = []
remove key (e ∷ es) = if str_eq e.0 key then remove key es else e ∷ remove key es

unfoldable pub put {ℓ} : {A : Type ℓ} → String → A → List (String × A) → List (String × A)
put key a [] = (key, a) ∷ []
put key a (e ∷ es) = if str_eq e.0 key then (key, a) ∷ es else e ∷ put key a es

unfoldable pub prune : ℕ → ApprovalState → ApprovalState
prune now s = record {
  pending = filter (λ e. ltb now e.1.expires_at) s.pending;
  approved = filter (λ e. ltb now e.1) s.approved;
}

abbrev pub approval_key : String → String → String
approval_key session_id action_key = append_text session_id (append_text ":" action_key)

abbrev pub is_requested : String → String → String × PendingApproval → Bool
is_requested session_id action_key e =
    str_eq e.1.session_id session_id && str_eq e.1.action_key action_key

-- `request`: `token` is the fresh random one.
unfoldable pub request :
    ℕ → ℕ → String → String → String → String → ApprovalState → ApprovalState × ApprovalRequest
unfolding prune put
request ttl_ms now token session_id action_key description s =
    let pruned : ApprovalState = prune now s in
    elim (find (is_requested session_id action_key) pruned.pending) [
      | some e ↦ (
        pruned,
        record { token = e.0; description = e.1.description; expires_at = e.1.expires_at },
      )
      | none ↦ (
        record pruned {
          pending =
              put token
                (record {
                  session_id = session_id;
                  action_key = action_key;
                  description = description;
                  expires_at = now + ttl_ms;
                })
                pruned.pending;
        },
        record { token = token; description = description; expires_at = now + ttl_ms },
      )
    ]

-- The description of what is approved, if the token is pending in the session.
unfoldable pub approve : ℕ → String → String → ApprovalState → ApprovalState × Option String
unfolding prune entry remove put
approve now session_id token s =
    let pruned : ApprovalState = prune now s in
    elim (entry token pruned.pending) [
      | none ↦ (pruned, none)
      | some p ↦ if not (str_eq p.session_id session_id) then (pruned, none) else (
        record {
          pending = remove token pruned.pending;
          approved = put (approval_key session_id p.action_key) p.expires_at pruned.approved;
        },
        some p.description,
      )
    ]

unfoldable pub reject : ℕ → String → String → ApprovalState → ApprovalState × Option String
unfolding prune entry remove
reject now session_id token s =
    let pruned : ApprovalState = prune now s in
    elim (entry token pruned.pending) [
      | none ↦ (pruned, none)
      | some p ↦
          if not (str_eq p.session_id session_id)
          then (pruned, none)
          else (record pruned { pending = remove token pruned.pending }, some p.description)
    ]

unfoldable pub consume : ℕ → String → String → ApprovalState → ApprovalState × Bool
unfolding prune entry remove
consume now session_id action_key s =
    let pruned : ApprovalState = prune now s in
    if not (defined (entry (approval_key session_id action_key) pruned.approved))
    then (pruned, false)
    else (
      record pruned { approved = remove (approval_key session_id action_key) pruned.approved },
      true,
    )

abbrev pub clear : ApprovalState → ApprovalState
clear s = record { pending = []; approved = [] }

-- The calls of the store, with the clock's value and, for a request, the token that it draws.
pub data ApprovalCall : Type 0 where
  requests : (ttl_ms : ℕ) (token session_id action_key description : String) → ApprovalCall
  approves : (session_id token : String) → ApprovalCall
  rejects : (session_id token : String) → ApprovalCall
  consumes : (session_id action_key : String) → ApprovalCall
  clears : ApprovalCall

unfoldable pub call : ApprovalState → ℕ × ApprovalCall → ApprovalState
unfolding request approve reject consume
call s (now, requests ttl_ms token session_id action_key description) =
    (request ttl_ms now token session_id action_key description s).0
call s (now, approves session_id token) = (approve now session_id token s).0
call s (now, rejects session_id token) = (reject now session_id token s).0
call s (now, consumes session_id action_key) = (consume now session_id action_key s).0
call s (now, clears) = clear s
