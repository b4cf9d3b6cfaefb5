-- ===== src/Providers/Router.antt =====
-- src/provider/router.ts: `runStructuredWithFallback` and `runTextWithFallback`.
--
-- A provider is its name and its answer to the request at hand. The two functions differ in the type
-- of what a provider gives, and in which of these values count as an answer: `answers` is `Boolean`,
-- of the validated result or of the text.
pub mod Fallback
use alfred_ai.Base.{
  String, Bool, true, false, not, ◌&&◌, ◌||◌, Option, none, some, List, [], ◌∷◌, ◌++◌,
  if◌then◌else◌, find, filter, str_eq, is_text, leb, units,
}

pub data FailureClass : Type 0 where
  network timeout schema policy_block unknown : FailureClass

pub record LlmResult (A : Type 0) : Type 0 where
  pub provider : String
  pub result : Option A
  pub failure_code : Option String
  pub failure_class : Option FailureClass
  pub failure_message : Option String

pub record LlmProvider (A : Type 0) : Type 0 where
  pub name : String
  pub generate : LlmResult A

pub record LlmProviderAttemptTrace : Type 0 where
  pub provider : String
  pub success : Bool
  pub failure_code : Option String
  pub failure_class : Option FailureClass
  pub failure_message : Option String

pub record RoutedResult (A : Type 0) : Type 0 where
  pub answer : LlmResult A
  pub provider_attempts : List LlmProviderAttemptTrace
  pub provider_used : Option String

abbrev pub is_transient : Option FailureClass → Bool
is_transient none = false
is_transient (some network) = true
is_transient (some timeout) = true
is_transient (some schema) = false
is_transient (some policy_block) = false
is_transient (some unknown) = false

abbrev pub is_policy_block : Option FailureClass → Bool
is_policy_block none = false
is_policy_block (some policy_block) = true
is_policy_block (some network) = false
is_policy_block (some timeout) = false
is_policy_block (some schema) = false
is_policy_block (some unknown) = false

abbrev pub is_given {ℓ} : {A : Type ℓ} → Option A → Bool
is_given none = false
is_given (some a) = true

-- The code is there and not empty.
abbrev pub has_code : Option String → Bool
has_code none = false
has_code (some code) = leb 1 (units code)

module _ {A : Type 0} (answers : A → Bool) where
  unfoldable pub should_try_next : LlmResult A → Bool
  should_try_next r =
      if not (is_given r.failure_class) && not (has_code r.failure_code)
      then false
      else if is_policy_block r.failure_class
      then false
      else is_transient r.failure_class || is_text r.failure_code "network_error"

  -- `orderProviders`; no provider has the empty name that counts as no preference.
  unfoldable pub order_providers : List (LlmProvider A) → Option String → List (LlmProvider A)
  order_providers ps none = ps
  order_providers ps (some preferred) = elim (find (λ p. str_eq p.name preferred) ps) [
    | none ↦ ps
    | some p ↦ p ∷ filter (λ q. not (str_eq q.name preferred)) ps
  ]

  -- `Boolean(result.result)`, `Boolean(result.content)`
  abbrev pub succeeded : Option A → Bool
  succeeded none = false
  succeeded (some a) = answers a

  unfoldable pub trace : LlmProvider A → LlmProviderAttemptTrace
  trace p = record {
    provider = p.name;
    success = succeeded p.generate.result;
    failure_code = p.generate.failure_code;
    failure_class = p.generate.failure_class;
    failure_message = p.generate.failure_message;
  }

  -- What is returned where no provider has been tried.
  abbrev pub not_run :
      String → String → FailureClass → String → List LlmProviderAttemptTrace → RoutedResult A
  not_run provider code class message attempts = record {
    answer = record {
      provider = provider;
      result = none;
      failure_code = some code;
      failure_class = some class;
      failure_message = some message;
    };
    provider_attempts = attempts;
    provider_used = none;
  }

  -- After the loop: the last failure, with all attempts. It is there whenever the loop has run, so
  -- the texts of the other case, in which the two functions differ, are never seen.
  unfoldable pub last_failure : Option (LlmResult A) → List LlmProviderAttemptTrace → RoutedResult A
  last_failure none attempts = not_run "none" "unknown" unknown "Generation failed" attempts
  last_failure (some failure) attempts = record {
    answer = failure;
    provider_attempts = attempts;
    provider_used = none;
  }

  unfoldable pub try_providers :
      List (LlmProvider A) → List LlmProviderAttemptTrace → Option (LlmResult A) → RoutedResult A
  unfolding should_try_next last_failure trace
  try_providers [] attempts last = last_failure last attempts
  try_providers (p ∷ ps) attempts last =
      let tried : List LlmProviderAttemptTrace = attempts ++ (trace p ∷ []) in
      let rest : RoutedResult A = try_providers ps tried (some p.generate) in
      if succeeded p.generate.result
      then record { answer = p.generate; provider_attempts = tried; provider_used = some p.name }
      else if not (should_try_next p.generate)
      then last_failure (some p.generate) tried
      else rest

  abbrev start : List (LlmProvider A) → RoutedResult A
  start [] = not_run "none" "missing_provider" policy_block "No LLM provider is configured" []
  start (p ∷ ps) = try_providers (p ∷ ps) [] none

  unfoldable pub run_with_fallback : List (LlmProvider A) → Option String → RoutedResult A
  unfolding order_providers try_providers
  run_with_fallback ps preferred = start (order_providers ps preferred)
