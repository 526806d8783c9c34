-- ===== src/Fallback/Retry.antt =====
-- _retry.py. Durations are whole seconds: `as_attempt_kwargs` truncates them to an `int`.
use el_sca_ansamble.Prelude.{ℕ, String, Option, none, some, List, [], ◌∷◌}

abbrev pub default_retry_count : ℕ
default_retry_count = 1

abbrev pub default_backoff_seconds : ℕ
default_backoff_seconds = 1

abbrev pub default_timeout_seconds : ℕ
default_timeout_seconds = 10

abbrev pub default_retry_status_codes : List ℕ
default_retry_status_codes = 429 ∷ 500 ∷ 502 ∷ 503 ∷ 504 ∷ []

abbrev pub default_non_retryable_reasons : List String
default_non_retryable_reasons = "invalid_schema" ∷ "auth_failure" ∷ "http_4xx_non_retryable" ∷ []

pub record RetryPolicy : Type 0 where
  pub retry_count : ℕ
  pub backoff_seconds : ℕ
  pub timeout_seconds : ℕ
  pub retry_status_codes : List ℕ
  pub non_retryable_reasons : List String

-- A `retry_backoff_policy` mapping, each key present or not.
pub record RetryNode : Type 0 where
  pub retry_count : Option ℕ
  pub backoff_seconds : Option ℕ
  pub timeout_seconds : Option ℕ
  pub retry_status_codes : Option (List ℕ)

abbrev get_or {ℓ} : {A : Type ℓ} → Option A → A → A
get_or none d = d
get_or (some a) d = a

abbrev default_policy : RetryPolicy
default_policy = record {
  retry_count = default_retry_count;
  backoff_seconds = default_backoff_seconds;
  timeout_seconds = default_timeout_seconds;
  retry_status_codes = default_retry_status_codes;
  non_retryable_reasons = default_non_retryable_reasons;
}

-- `none` is a node that is no mapping.
unfoldable pub from_yaml_node : Option RetryNode → RetryPolicy
from_yaml_node none = default_policy
from_yaml_node (some node) = record {
  retry_count = get_or node.retry_count default_retry_count;
  backoff_seconds = get_or node.backoff_seconds default_backoff_seconds;
  timeout_seconds = get_or node.timeout_seconds default_timeout_seconds;
  retry_status_codes = get_or node.retry_status_codes default_retry_status_codes;
  non_retryable_reasons = default_non_retryable_reasons;
}
