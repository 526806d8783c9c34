-- ===== src/Fallback/Reason.antt =====
-- `FailureReason`, `classify_http_status` and `classify_exception`.
use el_sca_ansamble.Prelude.{ℕ, String, Bool, ◌&&◌, ◌||◌, Option, none, some, leb, if◌then◌else◌}
use el_sca_ansamble.Prelude.Keys.{◌==◌, nat_eq}

pub data FailureReason : Type 0 where
  timeout http_429 http_5xx http_4xx checksum_mismatch corrupt_artifact : FailureReason
  stale_data auth_failure dns_or_network invalid_schema empty_response unknown : FailureReason

-- A member of this enumeration is a `str`: this is the text it compares as.
unfoldable pub value : FailureReason → String
value timeout = "timeout"
value http_429 = "http_429"
value http_5xx = "http_5xx"
value http_4xx = "http_4xx_non_retryable"
value checksum_mismatch = "checksum_mismatch"
value corrupt_artifact = "corrupt_artifact"
value stale_data = "stale_data"
value auth_failure = "auth_failure"
value dns_or_network = "dns_or_network_unavailable"
value invalid_schema = "invalid_schema"
value empty_response = "empty_response"
value unknown = "unknown"

unfoldable pub classify_http_status : ℕ → Option FailureReason
classify_http_status status_code =
    if status_code == 429
    then some http_429
    else if status_code == 401 || status_code == 403
    then some auth_failure
    else if leb 500 status_code && leb status_code 599
    then some http_5xx
    else if leb 400 status_code && leb status_code 499
    then some http_4xx
    else none

-- An exception, by what `isinstance` says of it, and its text. An exception may be of several
-- classes: `requests.ConnectTimeout` is a `Timeout` and a `ConnectionError`.
pub record Failure : Type 0 where
  pub is_timeout : Bool
  pub is_connection_error : Bool
  pub is_gaierror : Bool
  pub is_invalid_schema : Bool
  pub message : String

unfoldable pub classify_exception : Failure → FailureReason
classify_exception exc =
    if exc.is_timeout
    then timeout
    else if exc.is_connection_error || exc.is_gaierror
    then dns_or_network
    else if exc.is_invalid_schema
    then invalid_schema
    else unknown
