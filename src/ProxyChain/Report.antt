-- ===== src/ProxyChain/Report.antt =====
-- `healthcheck_all`: the health of every declared chain.
use el_sca_ansamble.Prelude.{
  ℕ, String, ◌≡◌, refl, ap, ◌∙◌, Bool, false, Option, some, List, [], ◌∷◌, All, arith,
}
use el_sca_ansamble.Prelude.Int.{ℤ}
use el_sca_ansamble.Prelude.Keys.{==_iff, string_eq, contains, keys, lookup, Distinct}
use el_sca_ansamble.ProxyChain.Chain.{Hop, ProxyChain, entry_url, has_vpn}
use el_sca_ansamble.ProxyChain.Config.{ProxyRouter}
use el_sca_ansamble.ProxyChain.Router.{HealthState, Answer, Health, probe_chain}
use el_sca_ansamble.ProxyChain.Health.{probe_chain-IsRecorded}

pub record ChainHealth : Type 0 where
  pub status : String
  pub latency : Option ℤ
  pub error : Option String
  pub entry_url : Option String
  pub has_vpn : Bool
  pub hops : List Hop
  pub description : String

abbrev pub chain_health : HealthState → ProxyChain → ChainHealth
chain_health state chain = record {
  status = state.status;
  latency = state.latency;
  error = state.error;
  entry_url = entry_url chain;
  has_vpn = has_vpn chain;
  hops = chain.hops;
  description = chain.description;
}

-- The row of a chain agrees with the state that a cache holds for it.
pub record IsCurrent (health : Health) (name : String) (row : ChainHealth) : Type 0 where
  pub state : HealthState
  pub entry : lookup name health ≡ some state
  pub status : row.status ≡ state.status
  pub latency : row.latency ≡ state.latency
  pub error : row.error ≡ state.error

module _ {S : Type 0} (monotonic : S → ℕ × S)
    (get : List (String × String) → String → ℤ → S → Answer × S) where
  unfoldable pub health_rows :
      ProxyRouter
      → Bool
      → List (String × ProxyChain)
      → Health × S
      → List (String × ChainHealth) × (Health × S)
  health_rows r force [] w = ([], w)
  health_rows r force ((name, chain) ∷ chains) w =
      let (state, w) = probe_chain monotonic get r name chain force w in
      let (rows, w) = health_rows r force chains w in ((name, chain_health state chain) ∷ rows, w)

  unfoldable pub healthcheck_all :
      ProxyRouter → Bool → Health × S → List (String × ChainHealth) × (Health × S)
  healthcheck_all r force w = health_rows r force r.chains w

  health_rows-others :
      (r : ProxyRouter) (force : Bool) (chains : List (String × ProxyChain)) (m : String)
      (w : Health × S)
      → contains m (keys chains) ≡ false
      → lookup m (health_rows r force chains w).1.0 ≡ lookup m w.0
  unfolding health_rows contains
  health_rows-others r force [] m w h = refl
  health_rows-others r force ((name, chain) ∷ chains) m w h =
      let probed = probe_chain monotonic get r name chain force w in
      health_rows-others r force chains m probed.1 (ground (arith, h))
      ∙ (probe_chain-IsRecorded monotonic get r name chain force w).others m
          (ground (arith, h, ==_iff m name, ==_iff name m))

  health_rows-IsCurrent :
      (r : ProxyRouter) (force : Bool) (chains : List (String × ProxyChain)) (w : Health × S)
      → Distinct chains
      → let result = health_rows r force chains w in
        (keys result.0 ≡ keys chains) × All (λ p. IsCurrent result.1.0 p.0 p.1) result.0
  unfolding health_rows
  health_rows-IsCurrent r force [] w d = (refl, tt)
  health_rows-IsCurrent r force ((name, chain) ∷ chains) w d =
      let probed = probe_chain monotonic get r name chain force w in
      let rest = health_rows-IsCurrent r force chains probed.1 d.1 in
      (
        ap (λ ks. name ∷ ks) rest.0,
        (
          record {
            state = probed.0;
            entry =
                health_rows-others r force chains name probed.1 d.0
                ∙ (probe_chain-IsRecorded monotonic get r name chain force w).entry;
            status = refl;
            latency = refl;
            error = refl;
          },
          rest.1,
        ),
      )

  -- For a router whose chains have different names, `healthcheck_all` gives one row for each chain,
  -- in order, and every row has the status, latency and error that the cache holds for the chain
  -- after the call, whether it was forced or not.
  pub healthcheck_all-IsCurrent :
      (r : ProxyRouter) (force : Bool) (w : Health × S)
      → Distinct r.chains
      → let result = healthcheck_all r force w in
        (keys result.0 ≡ keys r.chains) × All (λ p. IsCurrent result.1.0 p.0 p.1) result.0
  unfolding healthcheck_all
  healthcheck_all-IsCurrent r force w d = health_rows-IsCurrent r force r.chains w d
