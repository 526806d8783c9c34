-- ===== src/Fallback/Attempt.antt =====
-- `attempt_sources` of fallback.py. What the downloader and the sleep do to the world outside is an
-- explicit state `W`; the attempts are returned in the order in which they were appended.
use el_sca_ansamble.Prelude.{
  ℕ, zero, suc, String, Bool, true, false, not, ◌||◌, Option, none, some, List, [], ◌∷◌, ◌++◌, leb,
}
use Prim.Native.String.{◌++◌ as str_append}
use el_sca_ansamble.Prelude.Text.{decimal}
use el_sca_ansamble.Prelude.Keys.{contains, nat_eq, string_eq}
use el_sca_ansamble.SourcePolicy.Order.{SourceCandidate}
use el_sca_ansamble.Fallback.Reason.{
  FailureReason, empty_response, value, classify_http_status, Failure, classify_exception,
}
use el_sca_ansamble.Fallback.Retry.{default_non_retryable_reasons}

pub record AttemptResult : Type 0 where
  pub source : SourceCandidate
  pub success : Bool
  pub reason : Option FailureReason
  pub message : String
  pub status_code : Option ℕ

-- What a call of the downloader comes to: a status and a payload, or an exception.
pub data Fetched : Type 0 where
  response : ℕ → List ℕ → Fetched
  raised : Failure → Fetched

-- What the loop does after an attempt: hand the payload over, `break`, or go round again.
pub data Next : Type 0 where
  deliver : List ℕ → Next
  next_source : Next
  again : Next

pub record RetryRule : Type 0 where
  pub retry_count : ℕ
  pub retry_status_codes : List ℕ
  pub no_retry : List String

abbrev pub is_final : RetryRule → FailureReason → Bool
is_final rule reason = contains (value reason) rule.no_retry

abbrev pub break_if : Bool → Next
break_if true = next_source
break_if false = again

-- A response whose status was classified, in the loop's iteration number `attempt`.
unfoldable pub judge_response :
    RetryRule → SourceCandidate → ℕ → ℕ → List ℕ → Option FailureReason → AttemptResult × Next
unfolding contains value
judge_response rule source attempt status [] none = (
  record {
    source = source;
    success = false;
    reason = some empty_response;
    message = "empty response";
    status_code = some status;
  },
  next_source,
)
judge_response rule source attempt status (b ∷ payload) none = (
  record {
    source = source;
    success = true;
    reason = none;
    message = "ok";
    status_code = some status;
  },
  deliver (b ∷ payload),
)
judge_response rule source attempt status payload (some reason) = (
  record {
    source = source;
    success = false;
    reason = some reason;
    message = str_append "http status " (decimal status);
    status_code = some status;
  },
  break_if (
      is_final rule reason
      || not (contains status rule.retry_status_codes)
      || leb rule.retry_count attempt),
)

-- The body of the `try` and its `except`.
unfoldable pub judge : RetryRule → SourceCandidate → ℕ → Fetched → AttemptResult × Next
unfolding judge_response classify_http_status classify_exception
judge rule source attempt (response status payload) =
    judge_response rule source attempt status payload (classify_http_status status)
judge rule source attempt (raised exc) =
    let reason = classify_exception exc in
    (
      record {
        source = source;
        success = false;
        reason = some reason;
        message = exc.message;
        status_code = none;
      },
      break_if (leb rule.retry_count attempt || is_final rule reason),
    )

pub record Report (W : Type 0) : Type 0 where
  pub payload : Option (List ℕ)
  pub attempts : List AttemptResult
  pub world : W

pub record Selection (W : Type 0) : Type 0 where
  pub source : Option SourceCandidate
  pub payload : Option (List ℕ)
  pub attempts : List AttemptResult
  pub world : W

module _ {W Session : Type 0} (downloader : String → ℕ → Option Session → W → Fetched × W)
    (sleep : ℕ → W → W) (rule : RetryRule) (timeout backoff : ℕ) (session : Option Session) where
  abbrev pub noting : AttemptResult → Report W → Report W
  noting a r = record r { attempts = a ∷ r.attempts }

  -- The rest of an iteration after the judgement; `rest` is the next iteration.
  abbrev pub proceed : AttemptResult × Next → W → (W → Report W) → Report W
  proceed (a, deliver p) w rest = record { payload = some p; attempts = a ∷ []; world = w }
  proceed (a, next_source) w rest = record { payload = none; attempts = a ∷ []; world = w }
  proceed (a, again) w rest = noting a (rest (sleep backoff w))

  -- `for attempt in range(retry_count + 1)`, with `left` rounds to go.
  unfoldable pub try_source : SourceCandidate → ℕ → ℕ → W → Report W
  unfolding judge
  try_source source zero attempt w = record { payload = none; attempts = []; world = w }
  try_source source (suc left) attempt w =
      let (fetched, w') = downloader source.url timeout session w in
      proceed (judge rule source attempt fetched) w' (try_source source left (suc attempt))

  -- After the rounds at one source: return its payload, or append its attempts and go on.
  abbrev pub or_else :
      SourceCandidate → Option (List ℕ) → List AttemptResult → W → (W → Selection W) → Selection W
  or_else source (some p) attempts w rest = record {
    source = some source;
    payload = some p;
    attempts = attempts;
    world = w;
  }
  or_else source none attempts w rest =
      let s = rest w in
      record {
        source = s.source;
        payload = s.payload;
        attempts = attempts ++ s.attempts;
        world = s.world;
      }

  -- `for source in sources`
  unfoldable pub try_sources : List SourceCandidate → W → Selection W
  try_sources [] w = record { source = none; payload = none; attempts = []; world = w }
  try_sources (source ∷ sources) w =
      let r = try_source source (suc rule.retry_count) 0 w in
      or_else source r.payload r.attempts r.world (try_sources sources)

-- `non_retryable_reasons` is `None` where the caller leaves the module's own set in place.
abbrev or_default : Option (List String) → List String
or_default none = default_non_retryable_reasons
or_default (some reasons) = reasons

abbrev pub rule_of : ℕ → List ℕ → Option (List String) → RetryRule
rule_of retry_count codes reasons = record {
  retry_count = retry_count;
  retry_status_codes = codes;
  no_retry = or_default reasons;
}

unfoldable pub attempt_sources :
    {W Session : Type 0} (downloader : String → ℕ → Option Session → W → Fetched × W)
    (sleep : ℕ → W → W)
    → List SourceCandidate
    → (timeout retry_count backoff_seconds : ℕ) → List ℕ
    → Option Session
    → Option (List String)
    → W
    → Selection W
unfolding try_source try_sources
attempt_sources downloader sleep sources timeout retry_count backoff_seconds codes session reasons =
    try_sources downloader sleep (rule_of retry_count codes reasons) timeout backoff_seconds session
      sources
