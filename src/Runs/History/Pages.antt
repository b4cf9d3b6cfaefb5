-- ===== src/Runs/History/Pages.antt =====
-- The pages of a history, followed from the first one by their cursors, are the whole history.
use mathlib.Core.List.{append_assoc}
use mathlib.Core.Option.{map as map_option}
use alfred_ai.Base.{
  ℕ, zero, suc, ◌+◌, ◌-◌, ◌≤◌, ◌<◌, String, ◌≡◌, refl, ◌∙◌, sym, ap, subst, Bool, false, Option,
  none, some, List, [], ◌∷◌, ◌++◌, Result, ok, err, arith, inl, inr, Bool-cases, eq_iff, str_eq,
  ltb, take, drop, length, length-append, length-drop, take_append, drop-drop,
}
use alfred_ai.Runs.Store.{RunRecord, RunFiles}
use alfred_ai.Runs.History.{
  HistoryError, HistoryPage, position_after, start_of, page_limit, last_id, page_at, history_page,
  list_history, history_of,
}

-- A client that asks for page after page, at most `fuel` of them.
abbrev pub follow_pages :
    (Option String → Result HistoryError HistoryPage) → ℕ → Option String → Option (List RunRecord)
follow_pages ask zero before = none
follow_pages ask (suc fuel) before = elim (ask before) [
  | err e ↦ none
  | ok page ↦ elim page.next_cursor [
    | none ↦ some page.runs
    | some id ↦ map_option (λ rest. page.runs ++ rest) (follow_pages ask fuel (some id))
  ]
]

-- No two runs have the same id.
abbrev pub IsDistinctRuns : List RunRecord → Type 0
IsDistinctRuns [] = Unit
IsDistinctRuns (run ∷ runs) = (position_after run.run_id runs ≡ none) × IsDistinctRuns runs

position_skip :
    (id : String) (r : RunRecord) (runs : List RunRecord) (n : ℕ)
    → str_eq r.run_id id ≡ false
    → position_after id runs ≡ some n
    → position_after id (r ∷ runs) ≡ some (n + 1)
unfolding position_after
position_skip id r runs n miss e = rw (miss, e) refl

last-position :
    (xs ys : List RunRecord)
    → 0 < length xs
    → IsDistinctRuns (xs ++ ys)
    → (id : String) × (last_id xs ≡ some id) × (position_after id (xs ++ ys) ≡ some (length xs))
unfolding position_after
last-position [] ys h u = absurd (omega (arith, h))
last-position (r ∷ []) ys h u = (r.run_id, refl, ground (arith, eq_iff r.run_id r.run_id))
last-position (r ∷ s ∷ xs) ys h u =
    let (id, last, there) = last-position (s ∷ xs) ys (omega arith) u.1 in
    let apart : str_eq r.run_id id ≡ false = elim (Bool-cases (str_eq r.run_id id)) [
      | inr miss ↦ miss
      | inl hit ↦
          let same : r.run_id ≡ id = (eq_iff r.run_id id).0 hit in
          let gone : position_after id ((s ∷ xs) ++ ys) ≡ none =
            subst (λ i. position_after i ((s ∷ xs) ++ ys) ≡ none) same u.0 in
          cc
    ] in
    (
      id,
      last,
      position_skip id r ((s ∷ xs) ++ ys) (length (s ∷ xs)) apart there ∙ ap some (omega arith),
    )

last_id-append : (ws xs : List RunRecord) → 0 < length xs → last_id (ws ++ xs) ≡ last_id xs
last_id-append [] xs h = refl
last_id-append (w ∷ []) [] h = absurd (omega (arith, h))
last_id-append (w ∷ []) (x ∷ xs) h = refl
last_id-append (w ∷ v ∷ ws) xs h = last_id-append (v ∷ ws) xs h

take_all : (n : ℕ) (xs : List RunRecord) → length xs ≤ n → take n xs ≡ xs
take_all zero [] h = refl
take_all zero (x ∷ xs) h = absurd (omega (arith, h))
take_all (suc n) [] h = refl
take_all (suc n) (x ∷ xs) h = ap (λ ys. x ∷ ys) (take_all n xs (omega (arith, h)))

length-take : (n : ℕ) (xs : List RunRecord) → n ≤ length xs → length (take n xs) ≡ n
length-take zero xs h = refl
length-take (suc n) [] h = absurd (omega (arith, h))
length-take (suc n) (x ∷ xs) h = ap suc (length-take n xs (omega (arith, h)))

-- The next cursor of a page that is not the last is found where the page ends.
cursor_lem :
    (k limit : ℕ) (runs : List RunRecord)
    → 1 ≤ limit
    → k + limit < length runs
    → IsDistinctRuns runs
    → (id : String) × (last_id (take limit (drop k runs)) ≡ some id)
      × (position_after id runs ≡ some (k + limit))
cursor_lem k limit runs some_room more u =
    let ws = take k runs in
    let xs = take limit (drop k runs) in
    let ys = drop limit (drop k runs) in
    let size : length xs ≡ limit =
      length-take limit (drop k runs) (omega (arith, length-drop k runs)) in
    let start : length ws ≡ k = length-take k runs (omega (arith, more)) in
    let whole : (ws ++ xs) ++ ys ≡ runs =
      append_assoc ws xs ys
      ∙ ap (λ q. ws ++ q) (take_append limit (drop k runs))
      ∙ take_append k runs in
    let total : length (ws ++ xs) ≡ k + limit = omega (arith, length-append ws xs, size, start) in
    let (id, last, there) =
      last-position (ws ++ xs) ys (omega (arith, total, some_room))
        (subst IsDistinctRuns (sym whole) u) in
    (
      id,
      sym (last_id-append ws xs (omega (arith, size, some_room))) ∙ last,
      subst (λ rs. position_after id rs ≡ some (length (ws ++ xs))) whole there ∙ ap some total,
    )

module _ (ask : Option String → Result HistoryError HistoryPage) (fuel : ℕ) where
  follow_last :
      (before : Option String) (page : HistoryPage)
      → ask before ≡ ok page
      → page.next_cursor ≡ none
      → follow_pages ask (suc fuel) before ≡ some page.runs
  follow_last before page e last = ground arith

  follow_more :
      (before : Option String) (page : HistoryPage) (id : String) (rest : List RunRecord)
      → ask before ≡ ok page
      → page.next_cursor ≡ some id
      → follow_pages ask fuel (some id) ≡ some rest
      → follow_pages ask (suc fuel) before ≡ some (page.runs ++ rest)
  follow_more before page id rest e next further = ground arith

page_lem :
    (k limit : ℕ) (before : Option String) (runs : List RunRecord)
    → start_of before runs ≡ ok k
    → history_page before limit runs ≡ ok (page_at k limit runs)
unfolding history_page
page_lem k limit before runs e = rw (e, history_page) refl

follow_lem :
    (fuel k limit : ℕ) (before : Option String) (runs : List RunRecord)
    → 1 ≤ limit
    → k ≤ length runs
    → length runs - k < fuel
    → IsDistinctRuns runs
    → start_of before runs ≡ ok k
    → follow_pages (λ cursor. history_page cursor limit runs) fuel before ≡ some (drop k runs)
follow_lem zero k limit before runs some_room within enough u e = absurd (omega (arith, enough))
follow_lem (suc fuel) k limit before runs some_room within enough u e =
    elim (Bool-cases (ltb (k + limit) (length runs))) [
      | inr end ↦
          let all : take limit (drop k runs) ≡ drop k runs =
            take_all limit (drop k runs) (ground (arith, length-drop k runs)) in
          follow_last (λ cursor. history_page cursor limit runs) fuel before (page_at k limit runs)
            (page_lem k limit before runs e) (rw end refl)
          ∙ ap some all
      | inl more ↦
          let further : k + limit < length runs = ground arith in
          let (id, last, there) = cursor_lem k limit runs some_room further u in
          let next : start_of (some id) runs ≡ ok (k + limit) =
            unfold start_of in rw (there, start_of) refl in
          let rest =
            follow_lem fuel (k + limit) limit (some id) runs some_room (omega (arith, further))
              (omega (arith, enough, further, some_room)) u next in
          let joined : take limit (drop k runs) ++ drop (k + limit) runs ≡ drop k runs =
            ap (λ q. take limit (drop k runs) ++ q) (sym (drop-drop limit k runs))
            ∙ take_append limit (drop k runs) in
          follow_more (λ cursor. history_page cursor limit runs) fuel before (page_at k limit runs)
            id (drop (k + limit) runs) (page_lem k limit before runs e) (rw more last) rest
          ∙ ap some joined
    ]

-- The runs of a session have distinct ids: then a client that starts with no cursor and goes on with
-- the cursor of each page, for as many pages as there are runs and one more at most, is given every
-- run of the session's history once, in order, whatever the limit that it asks for.
pub pages_complete :
    (id_after : String → String → Bool) (session_id : String) (limit : Option ℕ)
    (terminal_only : Bool) (s : RunFiles)
    → IsDistinctRuns (history_of id_after session_id terminal_only s)
    → let runs = history_of id_after session_id terminal_only s in
      let ask : Option String → Result HistoryError HistoryPage = λ cursor.
        list_history id_after session_id
          (record { before = cursor; limit = limit; terminal_only = terminal_only })
          s in
      follow_pages ask (suc (length runs)) none ≡ some runs
unfolding list_history
pages_complete id_after session_id limit terminal_only s u =
    let runs = history_of id_after session_id terminal_only s in
    follow_lem (suc (length runs)) 0 (page_limit limit) none runs (omega arith) (omega arith)
      (omega arith) u (unfold start_of in refl)
