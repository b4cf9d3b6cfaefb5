-- ===== src/Providers/Router/Fallback.antt =====
-- Which provider's answer the router returns, and which providers it has asked for it.
use mathlib.Core.List.{append_assoc}
use alfred_ai.Base.{
  String, ◌≡◌, refl, ◌∙◌, sym, ap, subst, Bool, true, false, Option, none, some, List, [], ◌∷◌,
  ◌++◌, map, inl, inr, ◌⊎◌, Bool-cases, All, find, filter, not, str_eq, eq_iff, arith, ◌≢◌,
}
use alfred_ai.Providers.Router.{
  LlmResult, LlmProvider, LlmProviderAttemptTrace, RoutedResult, should_try_next, order_providers,
  succeeded, trace, last_failure, try_providers, run_with_fallback,
}

module _ {A : Type 0} (answers : A → Bool) where
  -- The provider has failed in a way that the next one may not.
  abbrev pub IsPassedOver : LlmProvider A → Type 0
  IsPassedOver p =
      (succeeded answers p.generate.result ≡ false) × (should_try_next answers p.generate ≡ true)

  -- The providers before `p` were asked and passed over, `p` was asked, and its answer is returned:
  -- it has succeeded, or it has failed and no other provider is to be asked or left.
  pub record Routed (ordered : List (LlmProvider A)) (attempts : List LlmProviderAttemptTrace)
      (out : RoutedResult A) : Type 0 where
    pub before : List (LlmProvider A)
    pub p : LlmProvider A
    pub after : List (LlmProvider A)
    pub parts : ordered ≡ before ++ (p ∷ after)
    pub passed : All IsPassedOver before
    pub asked : out.provider_attempts ≡ attempts ++ map (trace answers) (before ++ (p ∷ []))
    pub answer : out.answer ≡ p.generate
    pub end :
        ((succeeded answers p.generate.result ≡ true) × (out.provider_used ≡ some p.name))
        ⊎ ((succeeded answers p.generate.result ≡ false)
            × (out.provider_used ≡ none)
            × ((should_try_next answers p.generate ≡ false) ⊎ (after ≡ [])))

  -- A first provider that is passed over, before what the others give.
  pass-Routed :
      (p : LlmProvider A) (ps : List (LlmProvider A)) (attempts : List LlmProviderAttemptTrace)
      (out : RoutedResult A)
      → IsPassedOver p
      → Routed ps (attempts ++ (trace answers p ∷ [])) out
      → Routed (p ∷ ps) attempts out
  pass-Routed p ps attempts out over r = record {
    before = p ∷ r.before;
    p = r.p;
    after = r.after;
    parts = ap (◌∷◌ p) r.parts;
    passed = (over, r.passed);
    asked =
        r.asked
        ∙ append_assoc attempts (trace answers p ∷ [])
            (map (trace answers) (r.before ++ (r.p ∷ [])));
    answer = r.answer;
    end = r.end;
  }

  first-Routed :
      (p : LlmProvider A) (ps : List (LlmProvider A)) (attempts : List LlmProviderAttemptTrace)
      → succeeded answers p.generate.result ≡ false
      → (should_try_next answers p.generate ≡ false) ⊎ (ps ≡ [])
      → Routed
          (p ∷ ps)
          attempts
          (last_failure answers (some p.generate) (attempts ++ (trace answers p ∷ [])))
  unfolding last_failure
  first-Routed p ps attempts failed stop = record {
    before = [];
    p = p;
    after = ps;
    parts = refl;
    passed = tt;
    asked = refl;
    answer = refl;
    end = inr (failed, refl, stop);
  }

  -- A step of the loop, given what it does when it passes `p` over.
  step-Routed :
      (p : LlmProvider A) (ps : List (LlmProvider A)) (attempts : List LlmProviderAttemptTrace)
      (last : Option (LlmResult A))
      → (IsPassedOver p
          → Routed
              (p ∷ ps)
              attempts
              (try_providers answers ps (attempts ++ (trace answers p ∷ [])) (some p.generate)))
      → Routed (p ∷ ps) attempts (try_providers answers (p ∷ ps) attempts last)
  unfolding try_providers
  step-Routed p ps attempts last further =
      let tried : List LlmProviderAttemptTrace = attempts ++ (trace answers p ∷ []) in
      let given : RoutedResult A = record {
        answer = p.generate;
        provider_attempts = tried;
        provider_used = some p.name;
      } in
      elim (Bool-cases (succeeded answers p.generate.result)) [
        | inl done ↦
            let ran : try_providers answers (p ∷ ps) attempts last ≡ given =
              rw (done, try_providers) refl in
            subst (Routed (p ∷ ps) attempts) (sym ran) (record {
              before = [];
              p = p;
              after = ps;
              parts = refl;
              passed = tt;
              asked = refl;
              answer = refl;
              end = inl (done, refl);
            })
        | inr failed ↦ elim (Bool-cases (should_try_next answers p.generate)) [
          | inr stop ↦
              let ran : try_providers answers (p ∷ ps) attempts last
                  ≡ last_failure answers (some p.generate) tried =
                rw (failed, stop, try_providers) refl in
              subst (Routed (p ∷ ps) attempts) (sym ran)
                (first-Routed p ps attempts failed (inl stop))
          | inl go ↦
              let ran : try_providers answers (p ∷ ps) attempts last
                  ≡ try_providers answers ps tried (some p.generate) =
                rw (failed, go, try_providers) refl in
              subst (Routed (p ∷ ps) attempts) (sym ran) (further (failed, go))
        ]
      ]

  try_providers-Routed :
      (p : LlmProvider A) (ps : List (LlmProvider A)) (attempts : List LlmProviderAttemptTrace)
      (last : Option (LlmResult A))
      → Routed (p ∷ ps) attempts (try_providers answers (p ∷ ps) attempts last)
  unfolding try_providers
  try_providers-Routed p [] attempts last =
      step-Routed p [] attempts last (λ over. first-Routed p [] attempts over.0 (inr refl))
  try_providers-Routed p (q ∷ qs) attempts last = step-Routed p (q ∷ qs) attempts last (λ over.
      pass-Routed p (q ∷ qs) attempts _ over
        (try_providers-Routed q qs (attempts ++ (trace answers p ∷ [])) (some p.generate)))

  abbrev pub not_named : String → LlmProvider A → Bool
  not_named name q = not (str_eq q.name name)

  -- Either no provider has the name, or the first that has it is found, and what remains when those of
  -- the name are left out is what stands before it, and the others of what stands behind it.
  find_named :
      (name : String) (ps : List (LlmProvider A))
      → (All (λ q. q.name ≢ name) ps × (find (λ q. str_eq q.name name) ps ≡ none))
        ⊎ ((before : List (LlmProvider A)) × (p : LlmProvider A) × (after : List (LlmProvider A))
            × (ps ≡ before ++ (p ∷ after))
            × All (λ q. q.name ≢ name) before
            × (p.name ≡ name)
            × (find (λ q. str_eq q.name name) ps ≡ some p)
            × (filter (not_named name) ps ≡ before ++ filter (not_named name) after))
  unfolding find filter
  find_named name [] = inl (tt, refl)
  find_named name (q ∷ qs) = elim (Bool-cases (str_eq q.name name)) [
    | inl hit ↦ inr ([], q, qs, refl, tt, (eq_iff q.name name).0 hit, rw hit refl, rw hit refl)
    | inr miss ↦
        let other : q.name ≢ name = λ e. ground (arith, eq_iff q.name name) in
        elim (find_named name qs) [
          | inl (all, nothing) ↦ inl ((other, all), rw miss nothing)
          | inr (before, p, after, parts, apart, named, found, rest) ↦ inr (
            q ∷ before,
            p,
            after,
            ap (◌∷◌ q) parts,
            (other, apart),
            named,
            rw miss found,
            rw miss (ap (◌∷◌ q) rest),
          )
        ]
  ]

  -- The order in which the providers are to be asked: as they are configured, if none is preferred or
  -- no provider has the preferred name; else the first of that name, and then those of other names, as
  -- they are configured.
  pub data IsOrdered (ps : List (LlmProvider A))
      : Option String → List (LlmProvider A) → Type 0 where
    as_configured : IsOrdered ps none ps
    without_preferred : {name : String} → All (λ q. q.name ≢ name) ps → IsOrdered ps (some name) ps
    preferred_first :
        {name : String} (before : List (LlmProvider A)) (p : LlmProvider A)
        (after : List (LlmProvider A))
        → ps ≡ before ++ (p ∷ after)
        → All (λ q. q.name ≢ name) before
        → p.name ≡ name
        → IsOrdered ps (some name) (p ∷ before ++ filter (not_named name) after)

  order_providers-IsOrdered :
      (ps : List (LlmProvider A)) (preferred : Option String)
      → IsOrdered ps preferred (order_providers answers ps preferred)
  unfolding order_providers
  order_providers-IsOrdered ps none = as_configured
  order_providers-IsOrdered ps (some name) = elim (find_named name ps) [
    | inl (all, nothing) ↦
        let same : order_providers answers ps (some name) ≡ ps =
          rw (nothing, order_providers) refl in
        subst (IsOrdered ps (some name)) (sym same) (without_preferred all)
    | inr (before, p, after, parts, apart, named, found, rest) ↦
        let same : order_providers answers ps (some name)
            ≡ p ∷ before ++ filter (not_named name) after =
          rw (found, order_providers) (ap (◌∷◌ p) rest) in
        subst (IsOrdered ps (some name)) (sym same)
          (preferred_first before p after parts apart named)
  ]

  -- An order of some providers has a first one.
  IsOrdered-first :
      (q : LlmProvider A) (qs : List (LlmProvider A)) (preferred : Option String)
      (ordered : List (LlmProvider A))
      → IsOrdered (q ∷ qs) preferred ordered
      → (first : LlmProvider A) × (others : List (LlmProvider A)) × (ordered ≡ first ∷ others)
  IsOrdered-first q qs preferred ordered as_configured = (q, qs, refl)
  IsOrdered-first q qs preferred ordered (without_preferred all) = (q, qs, refl)
  IsOrdered-first q qs preferred ordered (preferred_first before p after parts apart named) =
      (p, _, refl)

  -- If no provider is configured, the router says so and has asked none. Otherwise it asks them in
  -- order: as they are configured, but the first that has the preferred name, if any has, before those
  -- of other names. Those before the last that it asks have failed in a way that allows another, and
  -- the answer that it returns is that last one's, which has succeeded, or has failed in a way that
  -- allows no other, or is the last of all. The trace has exactly the providers that were asked.
  pub run-Routed :
      (ps : List (LlmProvider A)) (preferred : Option String)
      → ((ps ≡ [])
          × ((run_with_fallback answers ps preferred).provider_attempts ≡ [])
          × ((run_with_fallback answers ps preferred).provider_used ≡ none)
          × ((run_with_fallback answers ps preferred).answer.failure_code
              ≡ some "missing_provider"))
        ⊎ ((ordered : List (LlmProvider A)) × IsOrdered ps preferred ordered
            × Routed ordered [] (run_with_fallback answers ps preferred))
  unfolding run_with_fallback order_providers find
  run-Routed [] none = inl (refl, refl, refl, refl)
  run-Routed [] (some name) = inl (refl, refl, refl, refl)
  run-Routed (q ∷ qs) preferred =
      let order = order_providers-IsOrdered (q ∷ qs) preferred in
      let (first, others, e) =
        IsOrdered-first q qs preferred (order_providers answers (q ∷ qs) preferred) order in
      inr (
        first ∷ others,
        subst (IsOrdered (q ∷ qs) preferred) e order,
        rw (e, run_with_fallback) (try_providers-Routed first others [] none),
      )
