-- ===== src/Fallback/Outcome.antt =====
-- What the caller of `attempt_sources` can rely on, drawn from the shape of its attempts.
use el_sca_ansamble.Prelude.{
  ℕ, suc, ◌+◌, ◌*◌, ◌≤◌, Bool, true, if◌then◌else◌, ◌≡◌, ◌≢◌, refl, String, false, Option, none,
  some, List, [], ◌∷◌, ◌++◌, arith, All, All-append,
}
use mathlib.Core.Path.{subst, sym, ap}
use el_sca_ansamble.SourcePolicy.Order.{SourceCandidate}
use el_sca_ansamble.Fallback.Attempt.{AttemptResult, Fetched, RetryRule, Selection}
use el_sca_ansamble.Fallback.Trace.{
  Answered, Block, answered, gave_up, retried, Trace, exhausted, delivered, moved_on, outcome,
  attempt_sources-Trace,
}

abbrev pub Unsuccessful : AttemptResult → Type 0
Unsuccessful a = a.success ≡ false

-- The list ends with a successful attempt at the source, and everything before it failed.
pub data EndsWith (source : SourceCandidate) : List AttemptResult → Type 0 where
  last : {a : AttemptResult} → Answered source a → EndsWith source (a ∷ [])
  after :
      {a : AttemptResult} {tries : List AttemptResult}
      → Unsuccessful a
      → EndsWith source tries
      → EndsWith source (a ∷ tries)

-- How a selection relates to its attempts.
abbrev pub IsConsistent : List AttemptResult → Option SourceCandidate → Option (List ℕ) → Type 0
IsConsistent tries none none = All Unsuccessful tries
IsConsistent tries (some s) (some p) = EndsWith s tries × (p ≢ [])
IsConsistent tries (some s) none = ⊥
IsConsistent tries none (some p) = ⊥

EndsWith-append :
    {s : SourceCandidate} (b tries : List AttemptResult)
    → All Unsuccessful b
    → EndsWith s tries
    → EndsWith s (b ++ tries)
EndsWith-append [] tries h e = e
EndsWith-append (a ∷ b) tries h e = after h.0 (EndsWith-append b tries h.1 e)

IsConsistent-append :
    (b tries : List AttemptResult) (o : Option SourceCandidate) (p : Option (List ℕ))
    → All Unsuccessful b
    → IsConsistent tries o p
    → IsConsistent (b ++ tries) o p
IsConsistent-append b tries none none h k = All-append Unsuccessful b tries h k
IsConsistent-append b tries (some s) (some p) h k = (EndsWith-append b tries h k.0, k.1)
IsConsistent-append b tries (some s) none h k = k
IsConsistent-append b tries none (some p) h k = k

-- The sources at which the attempts were made, one for each attempt.
abbrev pub sources_of : List AttemptResult → List SourceCandidate
sources_of [] = []
sources_of (a ∷ tries) = a.source ∷ sources_of tries

-- How many of a list's elements pass a test.
unfoldable pub tally {ℓ} : {A : Type ℓ} → (A → Bool) → List A → ℕ
tally p [] = 0
tally p (x ∷ xs) = let rest = tally p xs in if p x then suc rest else rest

tally-append :
    {A : Type 0} (p : A → Bool) (xs ys : List A) → tally p (xs ++ ys) ≡ tally p xs + tally p ys
unfolding tally
tally-append p [] ys = omega arith
tally-append p (x ∷ xs) ys = ground (arith, tally-append p xs ys)

sources_of-append :
    (b tries : List AttemptResult) → sources_of (b ++ tries) ≡ sources_of b ++ sources_of tries
sources_of-append [] tries = refl
sources_of-append (a ∷ b) tries = ap (λ l. a.source ∷ l) (sources_of-append b tries)

-- A block of a source that passes the test, or does not, before the attempts of the other sources.
tally-le_step :
    (y : Bool) (b c t r : ℕ)
    → b ≤ (if y then suc r else 0)
    → c ≤ t * suc r
    → b + c ≤ (if y then suc t else t) * suc r
tally-le_step true b c t r h k = grind arith
tally-le_step false b c t r h k = grind arith

module _ {rule : RetryRule} where
  Block-tally-le :
      {source : SourceCandidate} {n : ℕ} {b : List AttemptResult} {o : Option (List ℕ)}
      (p : SourceCandidate → Bool)
      → Block rule source n b o
      → tally p (sources_of b) ≤ (if p source then n else 0)
  unfolding tally
  Block-tally-le p (answered a h) = ground (arith, ap p a.at_source)
  Block-tally-le p (gave_up f stop) = ground (arith, ap p f.at_source)
  Block-tally-le p (retried f r b) = ground (arith, ap p f.at_source, Block-tally-le p b)

  Block-Unsuccessful :
      {source : SourceCandidate} {n : ℕ} {b : List AttemptResult} {o : Option (List ℕ)}
      → Block rule source n b o
      → o ≡ none
      → All Unsuccessful b
  Block-Unsuccessful (answered a p) e = cc
  Block-Unsuccessful (gave_up f stop) e = (f.unsuccessful, tt)
  Block-Unsuccessful (retried f r b) e = (f.unsuccessful, Block-Unsuccessful b e)

  Block-tally-ge :
      {source : SourceCandidate} {n : ℕ} {b : List AttemptResult} {o : Option (List ℕ)}
      (p : SourceCandidate → Bool)
      → Block rule source n b o
      → (if p source then 1 else 0) ≤ tally p (sources_of b)
  unfolding tally
  Block-tally-ge p (answered a h) = ground (arith, ap p a.at_source)
  Block-tally-ge p (gave_up f stop) = ground (arith, ap p f.at_source)
  Block-tally-ge p (retried f r b) = ground (arith, ap p f.at_source)

  Block-EndsWith :
      {source : SourceCandidate} {n : ℕ} {b : List AttemptResult} {o : Option (List ℕ)} {p : List ℕ}
      → Block rule source n b o
      → o ≡ some p
      → EndsWith source b × (p ≢ [])
  Block-EndsWith (answered {p = q} a h) e = (last a, λ k. h (cc))
  Block-EndsWith (gave_up f stop) e = cc
  Block-EndsWith (retried f r b) e =
      let (ends, full) = Block-EndsWith b e in (after f.unsuccessful ends, full)

  Trace-IsConsistent :
      {ss : List SourceCandidate} {tries : List AttemptResult} {o : Option SourceCandidate}
      {p : Option (List ℕ)}
      → Trace rule ss tries o p
      → IsConsistent tries o p
  Trace-IsConsistent exhausted = tt
  Trace-IsConsistent (delivered b) = Block-EndsWith b refl
  Trace-IsConsistent (moved_on {b = b} {rest = rest} {o = o} {p = p} block t e) =
      subst (λ tries. IsConsistent tries o p) (sym e)
        (IsConsistent-append b rest o p (Block-Unsuccessful block refl) (Trace-IsConsistent t))

  Trace-tally-le :
      {ss : List SourceCandidate} {tries : List AttemptResult} {o : Option SourceCandidate}
      {payload : Option (List ℕ)} (p : SourceCandidate → Bool)
      → Trace rule ss tries o payload
      → tally p (sources_of tries) ≤ tally p ss * suc rule.retry_count
  unfolding tally
  Trace-tally-le p exhausted = omega arith
  Trace-tally-le p (delivered {source = source} {sources = sources} {b = b} block) =
      let h =
        tally-le_step (p source) (tally p (sources_of b)) 0 (tally p sources) rule.retry_count
          (Block-tally-le p block) (omega arith) in
      omega (arith, h)
  Trace-tally-le p
        (moved_on {source = source} {sources = sources} {b = b} {rest = rest} block t e) =
      let h =
        tally-le_step (p source) (tally p (sources_of b)) (tally p (sources_of rest))
          (tally p sources) rule.retry_count (Block-tally-le p block) (Trace-tally-le p t) in
      omega (
        arith,
        h,
        ap (tally p) (sources_of-append b rest),
        tally-append p (sources_of b) (sources_of rest),
        ap (λ (l : List AttemptResult). tally p (sources_of l)) e,
      )

  Trace-tally-ge :
      {ss : List SourceCandidate} {tries : List AttemptResult} {o : Option SourceCandidate}
      {payload : Option (List ℕ)} (p : SourceCandidate → Bool)
      → Trace rule ss tries o payload
      → o ≡ none
      → tally p ss ≤ tally p (sources_of tries)
  unfolding tally
  Trace-tally-ge p exhausted h = omega arith
  Trace-tally-ge p (delivered b) h = cc
  Trace-tally-ge p (moved_on {b = b} {rest = rest} block t e) h = ground (
    arith,
    Block-tally-ge p block,
    Trace-tally-ge p t h,
    ap (tally p) (sources_of-append b rest),
    tally-append p (sources_of b) (sources_of rest),
    ap (λ (l : List AttemptResult). tally p (sources_of l)) e,
  )

module _ {W Session : Type 0} (downloader : String → ℕ → Option Session → W → Fetched × W)
    (sleep : ℕ → W → W) (sources : List SourceCandidate) (timeout retry_count backoff : ℕ)
    (codes : List ℕ) (session : Option Session) (reasons : Option (List String)) (w : W) where
  abbrev result : Selection W
  result = outcome downloader sleep sources timeout retry_count backoff codes session reasons w

  -- `attempt_sources` returns a source exactly when it returns a payload. The payload is then not
  -- empty, the last attempt is a successful one at that source and every attempt before it failed;
  -- without a source every attempt failed.
  pub attempt_sources-IsConsistent : IsConsistent result.attempts result.source result.payload
  attempt_sources-IsConsistent = Trace-IsConsistent (
      attempt_sources-Trace downloader sleep sources timeout retry_count backoff codes session
        reasons w)

  -- However the sources are told apart, by their names say, `attempt_sources` makes at most
  -- `retry_count + 1` attempts for each listed source of a kind at the sources of that kind.
  pub attempt_sources-length :
      (p : SourceCandidate → Bool)
      → tally p (sources_of result.attempts) ≤ tally p sources * suc retry_count
  attempt_sources-length p = Trace-tally-le p (
      attempt_sources-Trace downloader sleep sources timeout retry_count backoff codes session
        reasons w)

  -- Where `attempt_sources` returns no source, it has tried all of them: however the sources are told
  -- apart, it has made at least one attempt for each listed source of a kind at the sources of that
  -- kind.
  pub attempt_sources-exhausted :
      (p : SourceCandidate → Bool)
      → result.source ≡ none
      → tally p sources ≤ tally p (sources_of result.attempts)
  attempt_sources-exhausted p h =
      Trace-tally-ge p
        (attempt_sources-Trace downloader sleep sources timeout retry_count backoff codes session
          reasons w)
        h
