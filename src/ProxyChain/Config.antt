-- ===== src/ProxyChain/Config.antt =====
-- `ProxyRouter.from_config`: parsing and checking the `proxy` section.
use el_sca_ansamble.Prelude.{
  String, Bool, true, false, Option, none, some, List, [], ◌∷◌, if◌then◌else◌,
}
use el_sca_ansamble.Prelude.Int.{ℤ, pos}
use el_sca_ansamble.Prelude.Keys.{◌==◌, string_eq, contains, keys, insert}
use el_sca_ansamble.Prelude.Text.{strip}
use el_sca_ansamble.ProxyChain.Chain.{RawChain, ProxyChain, Policies, chain_from_dict}

pub record RawPolicies : Type 0 where
  pub healthcheck_url : Option String
  pub healthcheck_timeout_seconds : Option ℤ
  pub healthcheck_ttl_seconds : Option ℤ
  pub failover_order : List String
  pub retry_per_chain : Option ℤ

pub record PerSource : Type 0 where
  pub source : Option String
  pub chain : Option String

-- The `proxy` section, its absent parts empty; `policies` is none when absent or empty.
pub record Section : Type 0 where
  pub chains : List (String × RawChain)
  pub policies : Option RawPolicies
  pub per_source : List PerSource
  pub default_chain : Option String
  pub no_proxy : Option String

pub record ProxyRouter : Type 0 where
  pub chains : List (String × ProxyChain)
  pub policies : Policies
  pub default_chain : Option String
  pub per_source : List (String × String)
  pub no_proxy : Option String

-- What the messages of the three exceptions name.
pub data Undeclared : Type 0 where
  undeclared_default : String → Undeclared
  undeclared_pin : String → String → Undeclared
  undeclared_entry : String → Undeclared

-- `from_config` returns no router, raises a ValueError, or returns one.
pub data Parsed : Type 0 where
  legacy : Parsed
  value_error : Undeclared → Parsed
  router : ProxyRouter → Parsed

abbrev get_or : {A : Type 0} → A → Option A → A
get_or default none = default
get_or default (some a) = a

unfoldable pub policies_from_dict : Option RawPolicies → Policies
policies_from_dict none = record {
  healthcheck_url = "https://www.google.com/generate_204";
  healthcheck_timeout_seconds = pos 5;
  healthcheck_ttl_seconds = pos 60;
  failover_order = [];
  retry_per_chain = pos 2;
}
policies_from_dict (some raw) = record {
  healthcheck_url = get_or "https://www.google.com/generate_204" raw.healthcheck_url;
  healthcheck_timeout_seconds = get_or (pos 5) raw.healthcheck_timeout_seconds;
  healthcheck_ttl_seconds = get_or (pos 60) raw.healthcheck_ttl_seconds;
  failover_order = raw.failover_order;
  retry_per_chain = get_or (pos 2) raw.retry_per_chain;
}

unfoldable pub chains_from : List (String × RawChain) → List (String × ProxyChain)
chains_from [] = []
chains_from ((name, body) ∷ raw) = (name, chain_from_dict name body) ∷ chains_from raw

-- `if src and chain: per_source[src] = chain`
abbrev pin : List (String × String) → Option String → Option String → List (String × String)
pin d (some src) (some chain) =
    if src == "" then d else if chain == "" then d else insert src chain d
pin d _ _ = d

unfoldable pub per_source_from : List (String × String) → List PerSource → List (String × String)
per_source_from d [] = d
per_source_from d (item ∷ items) = per_source_from (pin d item.source item.chain) items

-- `(section.get("no_proxy") or "").strip() or None`
unfoldable pub no_proxy_of : Option String → Option String
unfolding strip
no_proxy_of none = none
no_proxy_of (some s) = let t = strip s in if t == "" then none else some t

-- The first check: a default chain that is neither absent nor empty must be declared.
unfoldable pub check_default : List String → Option String → Option Undeclared
check_default names none = none
check_default names (some name) =
    if name == ""
    then none
    else if contains name names
    then none
    else some (undeclared_default name)

-- The loop over `per_source.items()`, up to the first chain that is not declared.
unfoldable pub check_pins : List String → List (String × String) → Option Undeclared
check_pins names [] = none
check_pins names ((src, chain) ∷ d) =
    let rest = check_pins names d in
    if contains chain names then rest else some (undeclared_pin src chain)

-- The loop over the failover order.
unfoldable pub check_order : List String → List String → Option Undeclared
check_order names [] = none
check_order names (entry ∷ entries) =
    let rest = check_order names entries in
    if contains entry names then rest else some (undeclared_entry entry)

abbrev pub raise_or : Option Undeclared → Parsed → Parsed
raise_or none next = next
raise_or (some u) next = value_error u

-- The three checks at the end, in the order of the source.
unfoldable pub checked : ProxyRouter → Parsed
unfolding check_default check_pins check_order
checked r =
    let names = keys r.chains in
    raise_or (check_default names r.default_chain) (
      raise_or (check_pins names r.per_source)
        (raise_or (check_order names r.policies.failover_order) (router r)))

abbrev pub build : Section → Parsed
build section = checked (record {
  chains = chains_from section.chains;
  policies = policies_from_dict section.policies;
  default_chain = section.default_chain;
  per_source = per_source_from [] section.per_source;
  no_proxy = no_proxy_of section.no_proxy;
})

abbrev pub is_legacy : List (String × RawChain) → Option RawPolicies → Bool
is_legacy [] none = true
is_legacy _ _ = false

unfoldable pub from_config : Section → Parsed
from_config section = if is_legacy section.chains section.policies then legacy else build section
