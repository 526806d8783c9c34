-- ===== src/ProxyChain/Router.antt =====
-- `_probe_chain`, `_do_probe`, `select_chain_name` and `session_for_source`. The clock and the HTTP
-- client are parameters: they read and change a state `S` of the world outside the router. The
-- clock counts tenths of a millisecond, so the rounding of the latency is exact.
use el_sca_ansamble.Prelude.{
  ℕ, suc, ◌*◌, ◌-◌, String, Bool, true, false, not, ◌&&◌, Option, none, some, List, [], ◌∷◌, ◌++◌,
  if◌then◌else◌, ltb,
}
use el_sca_ansamble.Prelude.Int.{ℤ, pos, negsuc, sub_ℕ, ltb_ℤ}
use el_sca_ansamble.Prelude.Keys.{◌==◌, string_eq, contains, keys, lookup, insert}
use el_sca_ansamble.Prelude.Text.{join, decimal}
use el_sca_ansamble.ProxyChain.Chain.{ProxyChain, proxies_for_chain}
use el_sca_ansamble.ProxyChain.Config.{ProxyRouter}

pub record HealthState : Type 0 where
  pub status : String
  pub latency : Option ℤ
  pub error : Option String
  pub checked_at : ℕ

-- What the health check's request gives: a response, or a `requests.RequestException`.
pub data Answer : Type 0 where
  response : ℕ → Answer
  request_exception : String → Answer

abbrev pub Health : Type 0
Health = List (String × HealthState)

-- A number of seconds, in ticks of the clock.
unfoldable pub ticks : ℤ → ℤ
ticks (pos n) = pos (n * 10000)
ticks (negsuc n) = negsuc (suc n * 10000 - 1)

-- The names to try, in order: the preferred one, the failover order, `direct`.
unfoldable pub add_declared : List String → List String → List String → List String
add_declared names [] found = found
add_declared names (n ∷ ns) found =
    add_declared names ns
      (if contains n names && not (contains n found) then found ++ n ∷ [] else found)

abbrev pub first_candidate : List String → Option String → List String
first_candidate names none = []
first_candidate names (some p) = if p == "" then [] else if contains p names then p ∷ [] else []

-- The chain wanted for a source, by its name: its pin, or else the default chain.
abbrev pub pinned : Option String → Option String → Option String
pinned (some chain) default = some chain
pinned none default = default

unfoldable pub preferred_chain : ProxyRouter → Option String → Option String
preferred_chain r none = r.default_chain
preferred_chain r (some source) = pinned (lookup source r.per_source) r.default_chain

unfoldable pub candidates_of : ProxyRouter → Option String → List String
candidates_of r preferred =
    let names = keys r.chains in
    add_declared names ("direct" ∷ [])
      (add_declared names r.policies.failover_order (first_candidate names preferred))

-- What the loop over the candidates gives; a candidate that is no chain would be a `KeyError`.
pub data Picked : Type 0 where
  key_error : String → Picked
  picked : String → Picked
  exhausted : Picked

-- A cached state is used while it is younger than the TTL.
unfoldable pub is_fresh : ProxyRouter → ℕ → HealthState → Bool
is_fresh r now cached =
    ltb 0 cached.checked_at
    && ltb_ℤ (sub_ℕ now cached.checked_at) (ticks r.policies.healthcheck_ttl_seconds)

-- The cached state that answers a probe, if any.
unfoldable pub usable : ProxyRouter → Bool → ℕ → Option HealthState → Option HealthState
usable r true now cached = none
usable r false now none = none
usable r false now (some cached) = if is_fresh r now cached then some cached else none

-- Last resort: the preferred chain.
abbrev pub name_of : Option String → Picked → Option String
name_of preferred (picked name) = some name
name_of preferred _ = preferred

-- The proxies of the session, and the name of the chain when one is used.
unfoldable pub session_proxies :
    ProxyRouter → Option String → List (String × String) × Option String
session_proxies r none = ([], none)
session_proxies r (some name) = proxies_of r name (lookup name r.chains)
  where
    proxies_of : ProxyRouter → String → Option ProxyChain → List (String × String) × Option String
    proxies_of r name none = ([], none)
    proxies_of r name (some chain) =
        if name == "" then ([], none) else (proxies_for_chain chain r.no_proxy, some name)

module _ {S : Type 0} (monotonic : S → ℕ × S)
    (get : List (String × String) → String → ℤ → S → Answer × S) where
  -- The clock is read a second time only after a response.
  unfoldable pub health_of : ℕ → Answer → S → HealthState × S
  unfolding join decimal
  health_of started (request_exception message) s =
      (record { status = "down"; latency = none; error = some message; checked_at = 0 }, s)
  health_of started (response code) s =
      let (ended, s) = monotonic s in
      (
        if ltb code 400
            then record {
              status = "ok";
              latency = some (sub_ℕ ended started);
              error = none;
              checked_at = 0;
            }
            else record {
              status = "degraded";
              latency = some (sub_ℕ ended started);
              error = some (join "" ("upstream returned HTTP " ∷ decimal code ∷ []));
              checked_at = 0;
            },
        s,
      )

  unfoldable pub do_probe : ProxyRouter → ProxyChain → S → HealthState × S
  do_probe r chain s =
      let (started, s) = monotonic s in
      let (answer, s) =
        get (proxies_for_chain chain r.no_proxy) r.policies.healthcheck_url
          r.policies.healthcheck_timeout_seconds s in
      health_of started answer s

  unfoldable pub probe_with :
      ProxyRouter
      → String
      → ProxyChain
      → ℕ
      → Option HealthState
      → Health × S
      → HealthState × (Health × S)
  probe_with r name chain now (some cached) w = (cached, w)
  probe_with r name chain now none (health, s) =
      let (state, s) = do_probe r chain s in
      let state = record state { checked_at = now } in (state, (insert name state health, s))

  unfoldable pub probe_chain :
      ProxyRouter → String → ProxyChain → Bool → Health × S → HealthState × (Health × S)
  probe_chain r name chain force (health, s) =
      let (now, s) = monotonic s in
      probe_with r name chain now (usable r force now (lookup name health)) (health, s)

  -- One turn of the loop, given the rest of the loop.
  unfoldable pub turn :
      ProxyRouter
      → String
      → Option ProxyChain
      → (Health × S → Picked × (Health × S))
      → Health × S
      → Picked × (Health × S)
  turn r name none rest w = (key_error name, w)
  turn r name (some chain) rest w =
      let (state, w) = probe_chain r name chain false w in
      if state.status == "ok" then (picked name, w) else rest w

  unfoldable pub first_healthy : ProxyRouter → List String → Health × S → Picked × (Health × S)
  first_healthy r [] w = (exhausted, w)
  first_healthy r (name ∷ names) w = turn r name (lookup name r.chains) (first_healthy r names) w

  unfoldable pub select_chain_name :
      ProxyRouter → Option String → Health × S → Option String × (Health × S)
  select_chain_name r source w =
      let preferred = preferred_chain r source in
      let (found, w) = first_healthy r (candidates_of r preferred) w in (name_of preferred found, w)

  unfoldable pub session_for_source :
      ProxyRouter
      → Option String
      → Health × S
      → (List (String × String) × Option String) × (Health × S)
  session_for_source r source w =
      let (name, w) = select_chain_name r source w in (session_proxies r name, w)
