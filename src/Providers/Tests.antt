-- ===== src/Providers/Tests.antt =====
-- The router with two concrete providers.
use alfred_ai.Base.{String, ◌≡◌, ◌⊎◌, Bool, List, none, some, [], ◌∷◌, leb, units}
use alfred_ai.Providers.Router.{LlmProvider, timeout, run_with_fallback}
use alfred_ai.Providers.Router.Fallback.{IsOrdered, Routed, run-Routed}

abbrev slow : LlmProvider String
slow = record {
  name = "a";
  generate = record {
    provider = "a";
    result = none;
    failure_code = some "network_error";
    failure_class = some timeout;
    failure_message = none;
  };
}

abbrev ready : LlmProvider String
ready = record {
  name = "b";
  generate = record {
    provider = "b";
    result = some "hello";
    failure_code = none;
    failure_class = none;
    failure_message = none;
  };
}

abbrev is_text_given : String → Bool
is_text_given s = leb 1 (units s)

run-Routed_example :
    ((ready ∷ slow ∷ [] ≡ [])
      × ((run_with_fallback is_text_given (ready ∷ slow ∷ []) (some "a")).provider_attempts ≡ [])
      × ((run_with_fallback is_text_given (ready ∷ slow ∷ []) (some "a")).provider_used ≡ none)
      × ((run_with_fallback is_text_given (ready ∷ slow ∷ []) (some "a")).answer.failure_code
          ≡ some "missing_provider"))
    ⊎ ((ordered : List (LlmProvider String)) × IsOrdered is_text_given
          (ready ∷ slow ∷ [])
          (some "a")
          ordered
        × Routed is_text_given ordered []
            (run_with_fallback is_text_given (ready ∷ slow ∷ []) (some "a")))
run-Routed_example = run-Routed is_text_given (ready ∷ slow ∷ []) (some "a")
