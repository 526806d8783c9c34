-- ===== src/Tests/Egress.antt =====
-- A SOCKS and an HTTP transport, both of which reach a source.
use el_sca_ansamble.Prelude.{String, ◌≡◌, refl, true, some, List, [], ◌∷◌, any, if◌then◌else◌}
use el_sca_ansamble.Prelude.Keys.{◌==◌, string_eq, lookup}
use el_sca_ansamble.RoutePlan.{
  ProbeRow, Transports, transport_url, reaches, is_http, is_eligible, first_eligible, egress_of,
  select_for_tool, select_for_tool-reaches,
}

abbrev scheme : String → String
scheme url = if url == "http://tinyproxy:8888" then "http" else "socks5h"

abbrev transports : Transports
transports =
    ("sidecar-socks", ("https", "socks5h://proxy-xray:1080") ∷ [])
    ∷ ("sidecar-http", ("https", "http://tinyproxy:8888") ∷ [])
    ∷ ("direct", [])
    ∷ []

abbrev order : List String
order = "sidecar-socks" ∷ "sidecar-http" ∷ "direct" ∷ []

abbrev rows : List ProbeRow
rows =
    record { tool = "cve_bin_tool"; chains = ("sidecar-socks", "ok") ∷ ("sidecar-http", "ok") ∷ [] }
    ∷ []

http_sidecar :
    (select_for_tool scheme "cve_bin_tool" rows order transports).transport ≡ some "sidecar-http"
unfolding select_for_tool egress_of first_eligible is_eligible is_http reaches any transport_url
    lookup
http_sidecar = refl

select_for_tool-reaches_example : reaches "cve_bin_tool" rows "sidecar-http" ≡ true
select_for_tool-reaches_example =
    select_for_tool-reaches scheme "cve_bin_tool" rows order transports "sidecar-http" http_sidecar
