-- ===== src/Tests/Plans.antt =====
-- The plan of a container that reaches both sidecars.
use el_sca_ansamble.Prelude.{
  ℕ, String, ◌≡◌, ◌⊎◌, refl, Bool, true, false, ◌||◌, Option, none, some, [], ◌∷◌, any,
}
use el_sca_ansamble.Prelude.Keys.{◌==◌, string_eq, nat_eq, lookup, insert, contains}
use el_sca_ansamble.Prelude.Sort.{sort, insert_sorted}
use el_sca_ansamble.Prelude.Text.{join, decimal}
use el_sca_ansamble.SourcePolicy.Build.{build_sources}
use el_sca_ansamble.RoutePlan.{
  is_http, transport_url, reaches, is_eligible, first_eligible, egress_of, select_for_tool,
}
use el_sca_ansamble.UpdateDoctor.Transports.{
  enumerate_chains, hosts_onto, discover_container_transports,
}
use el_sca_ansamble.UpdateDoctor.Matrix.{
  DoctorConfig, Prober, nvd_probe_sources, sources_for, rows_of_tools,
}
use el_sca_ansamble.UpdateDoctor.Choice.{
  RoutePlan, build_plan, chosen_proxy_for_tool, build_plan-http,
}

abbrev scheme : String → String
scheme url = if_http (url == "http://tinyproxy:8888")
  where
    if_http : Bool → String
    if_http true = "http"
    if_http false = "socks5h"

abbrev config : DoctorConfig
config = record {
  sources = record {
    custom_entries = [];
    trivy = record {
      db_repositories = [];
      java_db_repositories = [];
      checks_bundle_repositories = [];
      vex_repositories = [];
    };
    upstream_update_urls = [];
    mirrors = [];
    scan_sources = [];
  };
  nvd_modes = "api2" ∷ [];
  proxy = record { no_proxy = none; chains = [] };
}

abbrev opener : String → ℕ → Bool
opener host port = host == "tinyproxy" || host == "proxy-xray"

abbrev probe : Prober
probe url proxies = "ok"

abbrev no_plan : RoutePlan
no_plan = record { transports = []; rows = []; plan = [] }

abbrev get : Option RoutePlan → RoutePlan
get none = no_plan
get (some p) = p

abbrev plan : RoutePlan
plan = get (build_plan scheme config opener probe true)

planned :
    (build_plan scheme config opener probe true ≡ some plan)
    × (chosen_proxy_for_tool plan "cve_bin_tool" ≡ some "http://tinyproxy:8888")
unfolding build_plan chosen_proxy_for_tool enumerate_chains hosts_onto discover_container_transports
    nvd_probe_sources sources_for rows_of_tools build_sources is_http transport_url reaches
    is_eligible first_eligible egress_of select_for_tool join decimal sort insert_sorted lookup
    insert contains any
planned = (refl, refl)

build_plan-http_example :
    let url = chosen_proxy_for_tool plan "cve_bin_tool" in
    (url ≡ none) ⊎ (is_http scheme url ≡ true)
build_plan-http_example = build_plan-http scheme config opener probe true plan planned.0
