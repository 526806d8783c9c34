-- ===== src/Tests/Environments.antt =====
-- A plan with a SOCKS egress for grype and the HTTP sidecar for cve-bin-tool, written and read.
use el_sca_ansamble.Prelude.{
  String, ◌≡◌, ◌≢◌, refl, ap, Bool, true, false, some, [], ◌∷◌, All, if◌then◌else◌, arith,
}
use el_sca_ansamble.Prelude.Keys.{◌==◌, string_eq, lookup}
use el_sca_ansamble.Prelude.Text.{upper, join, strip_left, strip_right, is_space}
use el_sca_ansamble.RoutePlan.{Egress, is_http}
use el_sca_ansamble.RoutePlan.Env.{
  Plan, proxy_for, http_url, socks_url, cve_http, assignments, render_env, load_env_file,
}
use el_sca_ansamble.RoutePlan.RoundTrip.{
  IsTrimmed, IsPlainPair, insert_all, load_env_file-render_env,
}

abbrev scheme : String → String
scheme url = if url == "http://tinyproxy:8888" then "http" else "socks5h"

abbrev egress : String → String → Egress
egress name url = record {
  transport = some name;
  proxy_url = some url;
  socks_ok = true;
  reason = "";
}

abbrev plan : Plan
plan = record {
  generated_utc = "2026-07-01T00:00:00+00:00";
  tools =
      ("grype", egress "sidecar-socks" "socks5h://proxy-xray:1080")
      ∷ ("cve_bin_tool", egress "sidecar-http" "http://tinyproxy:8888")
      ∷ [];
}

written :
    assignments scheme plan
    ≡ ("ALL_PROXY", "socks5h://proxy-xray:1080")
      ∷ ("all_proxy", "socks5h://proxy-xray:1080")
      ∷ ("CVE_BIN_TOOL_ENRICH_PROXY", "http://tinyproxy:8888")
      ∷ ("ROUTE_PLAN_GRYPE", "sidecar-socks")
      ∷ ("ROUTE_PLAN_CVE_BIN_TOOL", "sidecar-http")
      ∷ []
unfolding assignments http_url socks_url cve_http proxy_for is_http lookup upper join
written = refl

nonempty : String → Bool
nonempty String.[] = false
nonempty (String.◌∷◌ c s) = true

filled : (w : String) → nonempty w ≡ true → w ≢ ""
unfolding nonempty
filled w h e = ground (arith, ap nonempty e)

plain : All IsPlainPair (assignments scheme plan)
unfolding assignments http_url socks_url cve_http proxy_for is_http lookup upper join IsPlainPair
    IsTrimmed strip_left strip_right is_space nonempty
plain = (
  (refl, filled _ refl, (refl, refl, refl)),
  (
    (refl, filled _ refl, (refl, refl, refl)),
    (
      (refl, filled _ refl, (refl, refl, refl)),
      ((refl, filled _ refl, (refl, refl, refl)), ((refl, filled _ refl, (refl, refl, refl)), tt)),
    ),
  ),
)

load_env_file-render_env_example :
    load_env_file (some (render_env scheme plan)) ≡ insert_all (assignments scheme plan) []
load_env_file-render_env_example = load_env_file-render_env scheme plan refl plain
