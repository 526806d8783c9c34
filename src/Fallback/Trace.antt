-- ===== src/Fallback/Trace.antt =====
-- What a run of `attempt_sources` may look like, independently of its loops: a block of attempts
-- for each source, in the order of the sources, the last block perhaps one that delivered.
use el_sca_ansamble.Prelude.{
  ℕ, zero, suc, ◌+◌, ◌≤◌, ◌<◌, ◌≡◌, ◌≢◌, ◌⊎◌, inl, inr, refl, ap, String, Bool, true, false, not,
  ◌&&◌, Option, none, some, List, [], ◌∷◌, ◌++◌, arith,
}
use el_sca_ansamble.Prelude.Keys.{contains, nat_eq, string_eq}
use el_sca_ansamble.SourcePolicy.Order.{SourceCandidate}
use el_sca_ansamble.Fallback.Reason.{
  FailureReason, empty_response, classify_http_status, Failure, classify_exception,
}
use el_sca_ansamble.Fallback.Attempt.{
  AttemptResult, Fetched, response, raised, Next, deliver, next_source, again, RetryRule, is_final,
  break_if, judge_response, judge, proceed, or_else, rule_of, attempt_sources, Report, Selection,
  try_source, try_sources,
}

-- A status, if there was a response, must be one of the listed codes.
abbrev status_allows : RetryRule → Option ℕ → Bool
status_allows rule none = true
status_allows rule (some code) = contains code rule.retry_status_codes

abbrev reason_allows : RetryRule → Option FailureReason → Bool
reason_allows rule none = false
reason_allows rule (some empty_response) = false
reason_allows rule (some reason) = not (is_final rule reason)

-- The attempt failed in a way that the rule lets the loop repeat.
unfoldable pub is_retryable : RetryRule → AttemptResult → Bool
is_retryable rule a = reason_allows rule a.reason && status_allows rule a.status_code

pub record Failed (source : SourceCandidate) (a : AttemptResult) : Type 0 where
  pub at_source : a.source ≡ source
  pub unsuccessful : a.success ≡ false
  pub explained : a.reason ≢ none

pub record Answered (source : SourceCandidate) (a : AttemptResult) : Type 0 where
  pub at_source : a.source ≡ source
  pub successful : a.success ≡ true

-- The attempts at one source, with a number of rounds at hand, and the payload they end with.
pub data Block (rule : RetryRule) (source : SourceCandidate)
    : ℕ → List AttemptResult → Option (List ℕ) → Type 0 where
  answered :
      {n : ℕ} {a : AttemptResult} {p : List ℕ}
      → Answered source a
      → p ≢ []
      → Block rule source (suc n) (a ∷ []) (some p)
  gave_up :
      {n : ℕ} {a : AttemptResult}
      → Failed source a
      → (is_retryable rule a ≡ false) ⊎ (n ≡ 0)
      → Block rule source (suc n) (a ∷ []) none
  retried :
      {n : ℕ} {a : AttemptResult} {b : List AttemptResult} {o : Option (List ℕ)}
      → Failed source a
      → is_retryable rule a ≡ true
      → Block rule source n b o
      → Block rule source (suc n) (a ∷ b) o

pub data Trace (rule : RetryRule)
    : List SourceCandidate
      → List AttemptResult
      → Option SourceCandidate
      → Option (List ℕ)
      → Type 0 where
  exhausted : Trace rule [] [] none none
  delivered :
      {source : SourceCandidate} {sources : List SourceCandidate} {b : List AttemptResult}
      {p : List ℕ}
      → Block rule source (suc rule.retry_count) b (some p)
      → Trace rule (source ∷ sources) b (some source) (some p)
  moved_on :
      {source : SourceCandidate} {sources : List SourceCandidate} {b rest all : List AttemptResult}
      {o : Option SourceCandidate} {p : Option (List ℕ)}
      → Block rule source (suc rule.retry_count) b none
      → Trace rule sources rest o p
      → all ≡ b ++ rest
      → Trace rule (source ∷ sources) all o p

module _ (rule : RetryRule) (source : SourceCandidate) (attempt : ℕ) where
  -- What each verdict of `judge` says of its attempt.
  abbrev Verdict : AttemptResult → Next → Type 0
  Verdict a (deliver p) = Answered source a × (p ≢ [])
  Verdict a next_source =
      Failed source a × ((is_retryable rule a ≡ false) ⊎ (rule.retry_count ≤ attempt))
  Verdict a again = Failed source a × (is_retryable rule a ≡ true) × (attempt < rule.retry_count)

  reason_allows-eq-not :
      (r : FailureReason) → r ≢ empty_response → reason_allows rule (some r) ≡ not (is_final rule r)
  reason_allows-eq-not empty_response h = absurd (h refl)
  reason_allows-eq-not _ h = refl

  break_if-Verdict :
      (a : AttemptResult) (b : Bool)
      → Failed source a
      → (b ≡ false → (is_retryable rule a ≡ true) × (attempt < rule.retry_count))
      → (b ≡ true → (is_retryable rule a ≡ false) ⊎ (rule.retry_count ≤ attempt))
      → Verdict a (break_if b)
  break_if-Verdict a true f go stop = (f, stop refl)
  break_if-Verdict a false f go stop = (f, (go refl).0, (go refl).1)

  judge_response-Verdict :
      (status : ℕ) (payload : List ℕ) (o : Option FailureReason)
      → o ≢ some empty_response
      → Verdict
          (judge_response rule source attempt status payload o).0
          (judge_response rule source attempt status payload o).1
  unfolding judge_response is_retryable
  judge_response-Verdict status [] none h =
      (record { at_source = refl; unsuccessful = refl; explained = λ e. cc }, inl refl)
  judge_response-Verdict status (b ∷ payload) none h =
      (record { at_source = refl; successful = refl }, λ e. cc)
  judge_response-Verdict status payload (some r) h =
      let e = reason_allows-eq-not r (λ e. h (ap some e)) in
      break_if-Verdict _ _ (record { at_source = refl; unsuccessful = refl; explained = λ e. cc })
        (ground (arith, e)) (ground (arith, e))

  classify_http_status-ne-empty : (status : ℕ) → classify_http_status status ≢ some empty_response
  unfolding classify_http_status
  classify_http_status-ne-empty status = ground arith

  classify_exception-ne-empty : (exc : Failure) → classify_exception exc ≢ empty_response
  unfolding classify_exception
  classify_exception-ne-empty exc = ground arith

  judge-Verdict :
      (f : Fetched) → Verdict (judge rule source attempt f).0 (judge rule source attempt f).1
  unfolding judge is_retryable
  judge-Verdict (response status payload) =
      judge_response-Verdict status payload (classify_http_status status)
        (classify_http_status-ne-empty status)
  judge-Verdict (raised exc) =
      let e = reason_allows-eq-not (classify_exception exc) (classify_exception-ne-empty exc) in
      break_if-Verdict _ _ (record { at_source = refl; unsuccessful = refl; explained = λ e. cc })
        (ground (arith, e)) (ground (arith, e))

module _ {W Session : Type 0} (downloader : String → ℕ → Option Session → W → Fetched × W)
    (sleep : ℕ → W → W) (rule : RetryRule) (timeout backoff : ℕ) (session : Option Session) where
  abbrev tries : SourceCandidate → ℕ → ℕ → W → Report W
  tries = try_source downloader sleep rule timeout backoff session

  proceed-Block :
      (source : SourceCandidate) (left attempt : ℕ) (v : AttemptResult × Next) (w : W)
      (rest : W → Report W)
      → attempt + left ≡ rule.retry_count
      → Verdict rule source attempt v.0 v.1
      → (0 < left → (w : W) → Block rule source left (rest w).attempts (rest w).payload)
      → Block rule source
          (suc left)
          (proceed downloader sleep rule timeout backoff session v w rest).attempts
          (proceed downloader sleep rule timeout backoff session v w rest).payload
  proceed-Block source left attempt (a, deliver p) w rest e v next = answered v.0 v.1
  proceed-Block source left attempt (a, next_source) w rest e v next =
      gave_up v.0 (elim v.1 [ inl stop ↦ inl stop | inr spent ↦ inr (omega arith) ])
  proceed-Block source left attempt (a, again) w rest e v next =
      retried v.0 v.1 (next (omega (arith, v.2)) (sleep backoff w))

  try_source-Block :
      (source : SourceCandidate) (left attempt : ℕ) (w : W)
      → attempt + left ≡ rule.retry_count
      → Block rule source
          (suc left)
          (tries source (suc left) attempt w).attempts
          (tries source (suc left) attempt w).payload
  unfolding try_source
  try_source-Block source zero attempt w h =
      let (f, w') = downloader source.url timeout session w in
      proceed-Block source zero attempt (judge rule source attempt f) w' _ h
        (judge-Verdict rule source attempt f) (λ l w. elim l [ ])
  try_source-Block source (suc left) attempt w h =
      let (f, w') = downloader source.url timeout session w in
      proceed-Block source (suc left) attempt (judge rule source attempt f) w' _ h
        (judge-Verdict rule source attempt f)
        (λ l w. try_source-Block source left (suc attempt) w (omega arith))

  abbrev run : List SourceCandidate → W → Selection W
  run = try_sources downloader sleep rule timeout backoff session

  or_else-Trace :
      (source : SourceCandidate) (sources : List SourceCandidate) (o : Option (List ℕ))
      (b : List AttemptResult) (w : W) (rest : W → Selection W)
      → Block rule source (suc rule.retry_count) b o
      → Trace rule sources (rest w).attempts (rest w).source (rest w).payload
      → Trace rule
          (source ∷ sources)
          (or_else downloader sleep rule timeout backoff session source o b w rest).attempts
          (or_else downloader sleep rule timeout backoff session source o b w rest).source
          (or_else downloader sleep rule timeout backoff session source o b w rest).payload
  or_else-Trace source sources (some p) b w rest block t = delivered block
  or_else-Trace source sources none b w rest block t = moved_on block t refl

  pub try_sources-Trace :
      (sources : List SourceCandidate) (w : W)
      → Trace rule sources (run sources w).attempts (run sources w).source (run sources w).payload
  unfolding try_sources
  try_sources-Trace [] w = exhausted
  try_sources-Trace (source ∷ sources) w =
      let r = tries source (suc rule.retry_count) 0 w in
      or_else-Trace source sources r.payload r.attempts r.world (run sources)
        (try_source-Block source rule.retry_count 0 w (omega arith))
        (try_sources-Trace sources r.world)

module _ {W Session : Type 0} (downloader : String → ℕ → Option Session → W → Fetched × W)
    (sleep : ℕ → W → W) (sources : List SourceCandidate) (timeout retry_count backoff : ℕ)
    (codes : List ℕ) (session : Option Session) (reasons : Option (List String)) (w : W) where
  abbrev pub outcome : Selection W
  outcome =
      attempt_sources downloader sleep sources timeout retry_count backoff codes session reasons w

  -- Whatever the downloader answers, the attempts of `attempt_sources` are one block for each
  -- source, in order, until a block delivers. In a block every attempt but the last failed in a way
  -- that the retry rule lets through, the last one of a block that gives up either may not be
  -- retried or has used up all `retry_count + 1` rounds, and a delivered payload is not empty. The
  -- source and the payload returned are those of the block that delivered.
  pub attempt_sources-Trace :
      Trace
        (rule_of retry_count codes reasons)
        sources
        outcome.attempts
        outcome.source
        outcome.payload
  unfolding attempt_sources
  attempt_sources-Trace =
      try_sources-Trace downloader sleep (rule_of retry_count codes reasons) timeout backoff session
        sources w
