-- ===== src/Tests/Routing.antt =====
-- A router of two chains, the preferred of which is down.
use el_sca_ansamble.Prelude.{
  if◌then◌else◌, ℕ, suc, String, ◌≡◌, refl, true, none, some, List, [], ◌∷◌, All,
}
use el_sca_ansamble.Prelude.Int.{ℤ, pos}
use el_sca_ansamble.Prelude.Keys.{contains, keys, Distinct, ◌==◌, nat_eq, lookup, string_eq}
use el_sca_ansamble.ProxyChain.Chain.{ProxyChain, Policies}
use el_sca_ansamble.ProxyChain.Config.{Section, ProxyRouter, from_config}
use el_sca_ansamble.ProxyChain.Declared.{IsJudged, from_config-IsDeclared}
use el_sca_ansamble.ProxyChain.Router.{
  HealthState, Answer, response, request_exception, Health, Picked, name_of, is_fresh, ticks,
  preferred_chain, candidates_of, select_chain_name,
}
use el_sca_ansamble.ProxyChain.Report.{IsCurrent, healthcheck_all, healthcheck_all-IsCurrent}
use el_sca_ansamble.ProxyChain.Select.{Chosen, select_chain_name-Chosen}

abbrev chain : String → ProxyChain
chain url = record {
  name = url;
  hops =
      record { role = "vpn"; url = none; interface = some "wg0" }
      ∷ record { role = "front"; url = some url; interface = none }
      ∷ [];
  description = "";
}

abbrev policies : Policies
policies = record {
  healthcheck_url = "https://check";
  healthcheck_timeout_seconds = pos 5;
  healthcheck_ttl_seconds = pos 60;
  failover_order = "spare" ∷ [];
  retry_per_chain = pos 2;
}

abbrev router : ProxyRouter
router = record {
  chains = ("corp", chain "http://corp") ∷ ("spare", chain "http://spare") ∷ [];
  policies = policies;
  default_chain = some "corp";
  per_source = [];
  no_proxy = none;
}

-- The clock counts its readings; the network answers the second request only.
abbrev monotonic : ℕ → ℕ × ℕ
monotonic calls = (suc calls, suc calls)

abbrev answer : ℕ → Answer
answer calls = if calls == 2 then request_exception "refused" else response 204

abbrev get : List (String × String) → String → ℤ → ℕ → Answer × ℕ
get proxies url timeout calls = (answer calls, calls)

abbrev start : Health × ℕ
start = ([], 0)

select_chain_name-Chosen_example :
    let result = select_chain_name monotonic get router (some "ghcr") start in
    (p : Picked) × (Chosen result.1.0
        (candidates_of router (preferred_chain router (some "ghcr")))
        p
      × (result.0 ≡ name_of (preferred_chain router (some "ghcr")) p))
select_chain_name-Chosen_example = select_chain_name-Chosen monotonic get router (some "ghcr") start

abbrev healthy : HealthState
healthy = record { status = "ok"; latency = some (pos 3); error = none; checked_at = 5 }

abbrev later : Health × ℕ
later = (("corp", healthy) ∷ [], 9)

healthy_cached : lookup "corp" later.0 ≡ some healthy
unfolding lookup
healthy_cached = refl

healthy_fresh : is_fresh router (monotonic later.1).0 healthy ≡ true
unfolding is_fresh ticks
healthy_fresh = refl

abbrev section : Section
section = record {
  chains = ("corp", record { hops = []; description = none }) ∷ [];
  policies = none;
  per_source = record { source = some "ghcr"; chain = some "corp" } ∷ [];
  default_chain = some "corp";
  no_proxy = some " ";
}

from_config-IsDeclared_example : IsJudged section (from_config section)
from_config-IsDeclared_example = from_config-IsDeclared section

chains-Distinct : Distinct router.chains
unfolding contains
chains-Distinct = (refl, (refl, tt))

healthcheck_all-IsCurrent_example :
    let result = healthcheck_all monotonic get router true start in
    (keys result.0 ≡ keys router.chains) × All (λ p. IsCurrent result.1.0 p.0 p.1) result.0
healthcheck_all-IsCurrent_example =
    healthcheck_all-IsCurrent monotonic get router true start chains-Distinct
