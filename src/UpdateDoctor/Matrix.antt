-- ===== src/UpdateDoctor/Matrix.antt =====
-- update_doctor.py and route_plan.py: the probes of every source over every route, and what they
-- recommend. What `urlparse` reads in a URL, the connections and the answers are parameters.
use text.Mathlib.Text.{starts_with}
use Prim.Native.Char.{code}
use el_sca_ansamble.Prelude.{
  ℕ, String, Bool, true, not, ◌&&◌, ◌||◌, Option, none, some, List, [], ◌∷◌, ◌++◌, any,
  if◌then◌else◌,
}
use el_sca_ansamble.Prelude.Int.{pos}
use el_sca_ansamble.Prelude.Keys.{◌==◌, nat_eq, string_eq, contains, lookup, keys}
use el_sca_ansamble.Prelude.Text.{join, remove_prefix, span}
use el_sca_ansamble.Fallback.Reason.{Failure, classify_exception, value}
use el_sca_ansamble.SourcePolicy.Order.{SourceCandidate}
use el_sca_ansamble.SourcePolicy.Build.{Config, build_sources}
use el_sca_ansamble.RoutePlan.{Transports, is_ok_status, transport_url}
use el_sca_ansamble.UpdateDoctor.Transports.{ProxySection, Proxies, discover_transports}

abbrev pub tool_layers : List (String × List String)
tool_layers =
    ("trivy", "trivy-db" ∷ "trivy-java-db" ∷ "trivy-checks" ∷ "trivy-vex" ∷ [])
    ∷ ("grype", "grype-db" ∷ [])
    ∷ ("cve_bin_tool", "cve-bin-tool-mirror" ∷ [])
    ∷ []

abbrev nvd_endpoints : List (String × (String × String))
nvd_endpoints =
    ("api2", ("nvd-api2", "https://services.nvd.nist.gov/rest/json/cves/2.0"))
    ∷ ("json-nvd", ("nvd-json-feeds", "https://nvd.nist.gov/feeds/json/cve/1.1/"))
    ∷ ("json-mirror", ("nvd-json-mirror", "https://nvd.nist.gov/feeds/json/cve/1.1/"))
    ∷ []

pub record DoctorConfig : Type 0 where
  pub sources : Config
  pub nvd_modes : List String
  pub proxy : ProxySection

-- What `urlparse` reads in a URL.
pub record ParsedUrl : Type 0 where
  pub scheme : String
  pub hostname : Option String
  pub port : Option ℕ

abbrev default_ports : List (String × ℕ)
default_ports = ("http", 80) ∷ ("https", 443) ∷ ("socks5", 1080) ∷ ("socks5h", 1080) ∷ []

abbrev port_or : Option ℕ → ℕ → ℕ
port_or none d = d
port_or (some p) d = p

-- `parsed.port or ...`: port 0 counts as none.
abbrev nonzero : Option ℕ → Option ℕ
nonzero none = none
nonzero (some p) = if p == 0 then none else some p

abbrev endpoint_of : ParsedUrl → Option String → Option (String × ℕ)
endpoint_of parsed none = none
endpoint_of parsed (some host) =
    if host == ""
    then none
    else some
        (host, port_or (nonzero parsed.port) (port_or (lookup parsed.scheme default_ports) 1080))

unfoldable pub proxy_endpoint : (String → ParsedUrl) → Proxies → Option (String × ℕ)
proxy_endpoint urlparse proxies = elim (transport_url proxies) [
  | none ↦ none
  | some url ↦ if url == "" then none else endpoint_of (urlparse url) (urlparse url).hostname
]

abbrev is_slash : ℕ → Bool
is_slash c = c == b'/'

abbrev plain_url : String → Option String
plain_url url = if starts_with url "http://" || starts_with url "https://" then some url else none

unfoldable pub probe_url_for : String → Option String
probe_url_for url = elim (remove_prefix "oci://" url) [
  | some rest ↦ some (join "" ("https://" ∷ (span (λ c. not (is_slash c)) rest).0 ∷ "/v2/" ∷ []))
  | none ↦ plain_url url
]

-- The status code of an answer, or the exception of the request.
pub data Answer : Type 0 where
  answered : ℕ → Answer
  refused : Failure → Answer

unfoldable pub status_of : Answer → String
status_of (answered code) =
    if code == 407
    then "proxy-auth-required"
    else if code == 502 || code == 503 || code == 504
    then "gateway-error"
    else "ok"
status_of (refused failure) = value (classify_exception failure)

abbrev is_up : (String → ℕ → Bool) → Option (String × ℕ) → Bool
is_up opener none = true
is_up opener (some (host, port)) = opener host port

abbrev probed :
    (String → ParsedUrl)
    → (String → ℕ → Bool)
    → (Proxies → String → Answer)
    → Proxies
    → Option String
    → String
probed urlparse opener get proxies none = "local"
probed urlparse opener get proxies (some url) =
    if is_up opener (proxy_endpoint urlparse proxies)
    then status_of (get proxies url)
    else "proxy-down"

unfoldable pub default_prober :
    (String → ParsedUrl)
    → (String → ℕ → Bool)
    → (Proxies → String → Answer)
    → String
    → Proxies
    → String
default_prober urlparse opener get url proxies =
    probed urlparse opener get proxies (probe_url_for url)

abbrev nvd_candidate : String × String → SourceCandidate
nvd_candidate (name, url) = record {
  priority = pos 10;
  name = name;
  url = url;
  tool = "cve_bin_tool";
  layer = "nvd";
  enabled = true;
  auth_env = none;
  trust_level = "custom";
  notes = "";
}

abbrev nvd_from : List String → List String → List SourceCandidate
nvd_from [] seen = []
nvd_from (mode ∷ modes) seen = elim (lookup mode nvd_endpoints) [
  | none ↦ nvd_from modes seen
  | some e ↦
      if contains e.1 seen
      then nvd_from modes seen
      else nvd_candidate e ∷ nvd_from modes (e.1 ∷ seen)
]

unfoldable pub nvd_probe_sources : DoctorConfig → List SourceCandidate
nvd_probe_sources config = nvd_from config.nvd_modes []

-- `xs + ys`, where `none` stands for an exception
abbrev joined {ℓ} : {A : Type ℓ} → Option (List A) → Option (List A) → Option (List A)
joined none ys = none
joined (some xs) none = none
joined (some xs) (some ys) = some (xs ++ ys)

unfoldable pub sources_for : DoctorConfig → String → String → Option (List SourceCandidate)
sources_for config tool layer =
    joined (build_sources config.sources tool layer)
      (some (if tool == "cve_bin_tool" then nvd_probe_sources config else []))

pub record Row : Type 0 where
  pub tool : String
  pub layer : String
  pub source : String
  pub url : String
  pub chains : List (String × String)

abbrev pub Prober : Type 0
Prober = String → Proxies → String

abbrev cells : Prober → String → Transports → List (String × String)
cells probe url [] = []
cells probe url ((name, proxies) ∷ transports) =
    (name, probe url proxies) ∷ cells probe url transports

abbrev rows_for : Prober → Transports → String → String → List SourceCandidate → List Row
rows_for probe transports tool layer [] = []
rows_for probe transports tool layer (src ∷ srcs) =
    record {
      tool = tool;
      layer = layer;
      source = src.name;
      url = src.url;
      chains = cells probe src.url transports;
    }
    ∷ rows_for probe transports tool layer srcs

abbrev rows_of_sources :
    Prober → Transports → String → String → Option (List SourceCandidate) → Option (List Row)
rows_of_sources probe transports tool layer none = none
rows_of_sources probe transports tool layer (some srcs) =
    some (rows_for probe transports tool layer srcs)

abbrev rows_of_layers :
    DoctorConfig → Prober → Transports → String → List String → Option (List Row)
rows_of_layers config probe transports tool [] = some []
rows_of_layers config probe transports tool (layer ∷ layers) =
    joined (rows_of_sources probe transports tool layer (sources_for config tool layer))
      (rows_of_layers config probe transports tool layers)

unfoldable pub rows_of_tools :
    DoctorConfig → Prober → Transports → List (String × List String) → Option (List Row)
rows_of_tools config probe transports [] = some []
rows_of_tools config probe transports ((tool, layers) ∷ tools) =
    joined (rows_of_layers config probe transports tool layers)
      (rows_of_tools config probe transports tools)

-- Some source of the tool answers over the route.
unfoldable pub answers : List Row → String → String → Bool
answers rows tool name = any (λ r. r.tool == tool && is_ok_status (lookup name r.chains)) rows

unfoldable pub first_answering : List Row → String → List String → Option String
first_answering rows tool [] = none
first_answering rows tool (name ∷ names) =
    let rest = first_answering rows tool names in if answers rows tool name then some name else rest

abbrev recommend_for :
    List Row → List String → List (String × List String) → List (String × Option String)
recommend_for rows order [] = []
recommend_for rows order ((tool, layers) ∷ tools) =
    (tool, first_answering rows tool order) ∷ recommend_for rows order tools

unfoldable pub recommend : List Row → List String → List (String × Option String)
recommend rows order = recommend_for rows order tool_layers

pub record Matrix : Type 0 where
  pub chains : List String
  pub rows : List Row
  pub recommended : List (String × Option String)

abbrev pub matrix_with : List String → Option (List Row) → Option Matrix
matrix_with order none = none
matrix_with order (some rows) =
    some (record { chains = order; rows = rows; recommended = recommend rows order })

unfoldable pub build_matrix :
    DoctorConfig → (String → Option String) → (String → ℕ → Bool) → Prober → Option Matrix
build_matrix config environ opener probe =
    let transports = discover_transports config.proxy environ opener in
    matrix_with (keys transports) (rows_of_tools config probe transports tool_layers)
