-- ===== src/UpdateDoctor/Transports.antt =====
-- update_doctor.py and route_plan.py: the candidate routes of a host and of a container. Which
-- endpoints accept a TCP connection, and the environment variables, are parameters.
use el_sca_ansamble.Prelude.{
  ℕ, String, Bool, Option, none, some, List, [], ◌∷◌, ◌++◌, if◌then◌else◌,
}
use el_sca_ansamble.Prelude.Keys.{◌==◌, string_eq, contains, insert, keys}
use el_sca_ansamble.Prelude.Text.{join, decimal}
use el_sca_ansamble.ProxyChain.Chain.{RawChain, chain_from_dict, proxies_for_chain}
use el_sca_ansamble.RoutePlan.{Transports}

-- The section "proxy" of the configuration; a chain whose body `ProxyChain.from_dict` refuses is
-- `none`.
pub record ProxySection : Type 0 where
  pub no_proxy : Option String
  pub chains : List (String × Option RawChain)

abbrev pub Proxies : Type 0
Proxies = List (String × String)

abbrev filled : Option String → Option String
filled none = none
filled (some s) = if s == "" then none else some s

abbrev only_no_proxy : Option String → Proxies
only_no_proxy none = []
only_no_proxy (some s) = ("no_proxy", s) ∷ []

-- `d.setdefault("direct", ...)`
abbrev with_direct : Option String → Transports → Transports
with_direct no_proxy d =
    if contains "direct" (keys d) then d else d ++ ("direct", only_no_proxy (filled no_proxy)) ∷ []

abbrev pub chains_onto : Option String → List (String × Option RawChain) → Transports → Transports
chains_onto no_proxy [] d = d
chains_onto no_proxy ((name, none) ∷ raw) d = chains_onto no_proxy raw d
chains_onto no_proxy ((name, some body) ∷ raw) d =
    chains_onto no_proxy raw
      (insert name (proxies_for_chain (chain_from_dict name body) no_proxy) d)

unfoldable pub enumerate_chains : ProxySection → Transports
enumerate_chains section =
    with_direct section.no_proxy (chains_onto section.no_proxy section.chains [])

-- Both schemes through one proxy.
abbrev pub through : String → Proxies
through url = ("http", url) ∷ ("https", url) ∷ []

abbrev pub proxy_variables : List String
proxy_variables =
    "ALL_PROXY" ∷ "all_proxy" ∷ "HTTPS_PROXY" ∷ "https_proxy" ∷ "HTTP_PROXY" ∷ "http_proxy" ∷ []

abbrev unless_seen : String → Option String → List String → Transports → List String × Transports
unless_seen var none seen out = (seen, out)
unless_seen var (some val) seen out =
    if contains val seen
    then (seen, out)
    else (val ∷ seen, insert (join "" ("env:" ∷ var ∷ [])) (through val) out)

unfoldable pub env_transports_from :
    (String → Option String) → List String → List String → Transports → Transports
env_transports_from environ [] seen out = out
env_transports_from environ (var ∷ vars) seen out =
    let (seen', out') = unless_seen var (filled (environ var)) seen out in
    env_transports_from environ vars seen' out'

unfoldable pub env_proxy_transports : (String → Option String) → Transports
env_proxy_transports environ = env_transports_from environ proxy_variables [] []

abbrev pub common_local_proxy_ports : List ℕ
common_local_proxy_ports = 10808 ∷ 1080 ∷ 10809 ∷ 1081 ∷ 2080 ∷ 2081 ∷ 8889 ∷ 7890 ∷ 9150 ∷ []

-- A SOCKS and an HTTP route for each port of a host that answers.
abbrev pub both_routes : String → String → String → ℕ → Proxies × Proxies
both_routes socks http host port = (
  through (join "" (socks ∷ host ∷ ":" ∷ decimal port ∷ [])),
  through (join "" (http ∷ host ∷ ":" ∷ decimal port ∷ [])),
)

unfoldable pub discover_local_proxies : List ℕ → (String → ℕ → Bool) → Transports → Transports
discover_local_proxies [] opener out = out
discover_local_proxies (port ∷ ports) opener out =
    let (socks, http) = both_routes "socks5h://" "http://" "127.0.0.1" port in
    let out' =
      insert (join "" ("local-http:127.0.0.1:" ∷ decimal port ∷ [])) http
        (insert (join "" ("local:127.0.0.1:" ∷ decimal port ∷ [])) socks out) in
    discover_local_proxies ports opener (if opener "127.0.0.1" port then out' else out)

-- `d.update(e)`
abbrev pub update_with : Transports → Transports → Transports
update_with [] d = d
update_with ((name, proxies) ∷ e) d = update_with e (insert name proxies d)

unfoldable pub discover_transports :
    ProxySection → (String → Option String) → (String → ℕ → Bool) → Transports
discover_transports section environ opener =
    update_with (discover_local_proxies common_local_proxy_ports opener [])
      (update_with (env_proxy_transports environ) (enumerate_chains section))

-- route_plan.py from here on: the routes of a container.
abbrev pub common_host_proxy_ports : List ℕ
common_host_proxy_ports = 10808 ∷ 1080 ∷ 10809 ∷ 1081 ∷ 2080 ∷ 2081 ∷ 8889 ∷ 7890 ∷ 8118 ∷ 9150 ∷ []

abbrev pub sidecar_http : String
sidecar_http = "http://tinyproxy:8888"

abbrev pub sidecar_socks : String
sidecar_socks = "socks5h://proxy-xray:1080"

abbrev pub with_no_proxy : Proxies → Option String → Proxies
with_no_proxy proxies no_proxy = proxies ++ only_no_proxy (filled no_proxy)

abbrev pub sidecars_onto : (String → ℕ → Bool) → Option String → Transports → Transports
sidecars_onto opener no_proxy d =
    let d' =
      if opener "tinyproxy" 8888
      then insert "sidecar-http" (with_no_proxy (through sidecar_http) no_proxy) d
      else d in
    if opener "proxy-xray" 1080
    then insert "sidecar-socks" (with_no_proxy (through sidecar_socks) no_proxy) d'
    else d'

unfoldable pub hosts_onto : List ℕ → (String → ℕ → Bool) → Option String → Transports → Transports
hosts_onto [] opener no_proxy d = d
hosts_onto (port ∷ ports) opener no_proxy d =
    let (socks, http) = both_routes "socks5h://" "http://" "host.docker.internal" port in
    let d' =
      insert (join "" ("host-http:" ∷ decimal port ∷ [])) (with_no_proxy http no_proxy)
        (insert (join "" ("host-socks:" ∷ decimal port ∷ [])) (with_no_proxy socks no_proxy) d) in
    hosts_onto ports opener no_proxy (if opener "host.docker.internal" port then d' else d)

unfoldable pub discover_container_transports :
    ProxySection → (String → ℕ → Bool) → Bool → Transports
discover_container_transports section opener sidecars =
    let chains = enumerate_chains section in
    let d = if sidecars then sidecars_onto opener section.no_proxy chains else chains in
    with_direct section.no_proxy (hosts_onto common_host_proxy_ports opener section.no_proxy d)
