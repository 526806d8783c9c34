-- ===== src/ProxyChain/Chain.antt =====
-- `Hop`, `ProxyChain`, `Policies` and `_proxies_for_chain`.
use el_sca_ansamble.Prelude.{
  String, Bool, true, false, Option, none, some, List, [], ◌∷◌, ◌++◌, any, if◌then◌else◌,
}
use el_sca_ansamble.Prelude.Int.{ℤ}
use el_sca_ansamble.Prelude.Keys.{◌==◌, string_eq}
use el_sca_ansamble.Prelude.Text.{strip}

pub record Hop : Type 0 where
  pub role : String
  pub url : Option String
  pub interface : Option String

-- The mapping that the configuration gives for a hop: an absent key is `none`.
pub record RawHop : Type 0 where
  pub role : Option String
  pub url : Option String
  pub interface : Option String

-- `str(raw[key]).strip() if raw.get(key) else None`
abbrev pub stripped : Option String → Option String
stripped none = none
stripped (some s) = if s == "" then none else some (strip s)

-- `str(raw.get("role", "")).strip() or "hop"`
abbrev role_of : Option String → String
role_of none = "hop"
role_of (some s) = let r = strip s in if r == "" then "hop" else r

unfoldable pub hop_from_dict : RawHop → Hop
unfolding strip
hop_from_dict raw = record {
  role = role_of raw.role;
  url = stripped raw.url;
  interface = stripped raw.interface;
}

pub record ProxyChain : Type 0 where
  pub name : String
  pub hops : List Hop
  pub description : String

pub record RawChain : Type 0 where
  pub hops : List RawHop
  pub description : Option String

abbrev pub text_of : Option String → String
text_of none = ""
text_of (some s) = s

unfoldable pub hops_from : List RawHop → List Hop
hops_from [] = []
hops_from (h ∷ hs) = hop_from_dict h ∷ hops_from hs

unfoldable pub chain_from_dict : String → RawChain → ProxyChain
chain_from_dict name raw = record {
  name = name;
  hops = hops_from raw.hops;
  description = text_of raw.description;
}

-- A missing URL and an empty one are both falsy.
abbrev pub is_text : Option String → Bool
is_text none = false
is_text (some s) = if s == "" then false else true

abbrev pub has_url : Hop → Bool
has_url h = is_text h.url

-- The hops front to back, as the loop walks them.
unfoldable pub entry_of : List Hop → Option String
entry_of [] = none
entry_of (h ∷ hs) = let rest = entry_of hs in if has_url h then h.url else rest

unfoldable pub entry_url : ProxyChain → Option String
entry_url chain = entry_of chain.hops

unfoldable pub has_vpn : ProxyChain → Bool
has_vpn chain = any (λ h. h.role == "vpn") chain.hops

pub record Policies : Type 0 where
  pub healthcheck_url : String
  pub healthcheck_timeout_seconds : ℤ
  pub healthcheck_ttl_seconds : ℤ
  pub failover_order : List String
  pub retry_per_chain : ℤ

abbrev pub proxy_entries : Option String → List (String × String)
proxy_entries none = []
proxy_entries (some entry) = if entry == "" then [] else ("http", entry) ∷ ("https", entry) ∷ []

abbrev pub no_proxy_entry : Option String → List (String × String)
no_proxy_entry none = []
no_proxy_entry (some s) = if s == "" then [] else ("no_proxy", s) ∷ []

-- The settings of a session's `proxies` mapping, in order.
unfoldable pub proxies_for_chain : ProxyChain → Option String → List (String × String)
proxies_for_chain chain no_proxy = proxy_entries (entry_url chain) ++ no_proxy_entry no_proxy
