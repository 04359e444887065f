-- ===== src/Runtime/Errors.antt =====
-- The errors of apps/orchestrator/runtime.py, and the routing of tasks to models.
use agent_workbench.Base.{String, Bool, true, false, not, ◌||◌, List, [], ◌∷◌, ◌==◌, string_eq, any}

-- What a model call raises: the module's own errors, a cancellation, the runtime's timeout and
-- connection errors, and any other class by its name.
pub data RuntimeExn : Type 0 where
  model_error : String → Bool → RuntimeExn
  model_timeout_error : RuntimeExn
  model_validation_error : String → RuntimeExn
  budget_exceeded : String → String → RuntimeExn
  cancelled_error timeout_error connection_error : RuntimeExn
  other_error : String → RuntimeExn

abbrev pub retryable_names : List String
retryable_names =
    "RateLimitError" ∷ "APIConnectionError" ∷ "InternalServerError" ∷ "ServiceUnavailableError"
    ∷ "Timeout" ∷ "ConnectError" ∷ "ReadTimeout" ∷ []

-- `_is_retryable`
unfoldable pub is_retryable : RuntimeExn → Bool
is_retryable (model_error message retryable) = retryable
is_retryable model_timeout_error = true
is_retryable (model_validation_error message) = false
is_retryable (budget_exceeded message budget) = false
is_retryable cancelled_error = false
is_retryable timeout_error = true
is_retryable connection_error = true
is_retryable (other_error name) = any (λ n. n == name) retryable_names

-- `retry_allowed_for_tool`
unfoldable pub retry_allowed_for_tool : String → Bool
retry_allowed_for_tool category = not (category == "write" || category == "destructive")

pub data ModelTask : Type 0 where
  fast reasoning summary : ModelTask

pub record ModelRouter : Type 0 where
  pub fast_model : String
  pub reasoning_model : String
  pub summary_model : String

-- `ModelRouter.route`
unfoldable pub route : ModelRouter → ModelTask → String
route r fast = r.fast_model
route r summary = r.summary_model
route r reasoning = r.reasoning_model
