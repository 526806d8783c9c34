-- ===== src/RoutePlan/Env.antt =====
-- route_plan.py: route-plan.env, as render_env writes it and load_env_file reads it. The scheme that
-- `urlparse` reads in a URL is a parameter.
use Prim.Native.Char.{Char, code}
use Prim.Native.String.{◌++◌ as str_append}
use el_sca_ansamble.Prelude.{
  ℕ, String, Bool, true, false, not, ◌&&◌, ◌||◌, Option, none, some, List, [], ◌∷◌, ◌++◌, map, leb,
  if◌then◌else◌,
}
use el_sca_ansamble.Prelude.Keys.{◌==◌, nat_eq, string_eq, lookup, insert}
use el_sca_ansamble.Prelude.Text.{upper, join, strip}
use el_sca_ansamble.RoutePlan.{Egress, is_http, is_truthy}

-- The parts of a plan that the file shows.
pub record Plan : Type 0 where
  pub generated_utc : String
  pub tools : List (String × Egress)

abbrev proxy_of : Option Egress → Option String
proxy_of none = none
proxy_of (some sel) = sel.proxy_url

-- `tools.get(tool, {}).get("proxy_url")`
unfoldable pub proxy_for : Plan → String → Option String
proxy_for plan tool = proxy_of (lookup tool plan.tools)

abbrev pub Assignments : Type 0
Assignments = List (String × String)

abbrev keep_if : Bool → Option String → Option String
keep_if true url = url
keep_if false url = none

abbrev or_next : Option String → Option String → Option String
or_next none url = url
or_next (some u) url = some u

-- `sel.get("transport") or "none"`
abbrev transport_or_none : Option String → String
transport_or_none none = "none"
transport_or_none (some name) = if name == "" then "none" else name

abbrev provenance : List (String × Egress) → Assignments
provenance [] = []
provenance ((tool, sel) ∷ tools) =
    (join "" ("ROUTE_PLAN_" ∷ upper tool ∷ []), transport_or_none sel.transport) ∷ provenance tools

abbrev http_lines : Option String → Assignments
http_lines none = []
http_lines (some url) =
    ("HTTP_PROXY", url) ∷ ("HTTPS_PROXY", url) ∷ ("http_proxy", url) ∷ ("https_proxy", url) ∷ []

abbrev socks_lines : Option String → Assignments
socks_lines none = []
socks_lines (some url) = ("ALL_PROXY", url) ∷ ("all_proxy", url) ∷ []

abbrev cve_lines : Option String → Assignments
cve_lines none = []
cve_lines (some url) = ("CVE_BIN_TOOL_ENRICH_PROXY", url) ∷ []

abbrev pub line_of : String × String → String
line_of (k, v) = str_append k (String.◌∷◌ "=" v)

module _ (scheme : String → String) where
  -- The first of trivy and grype that has an HTTP proxy, and that has another one.
  unfoldable pub http_url : Plan → Option String
  http_url plan =
      let of : String → Option String =
        λ tool. keep_if (is_http scheme (proxy_for plan tool)) (proxy_for plan tool) in
      or_next (of "trivy") (of "grype")

  unfoldable pub socks_url : Plan → Option String
  socks_url plan =
      let of : String → Option String = λ tool.
        keep_if (is_truthy (proxy_for plan tool) && not (is_http scheme (proxy_for plan tool)))
          (proxy_for plan tool) in
      or_next (of "trivy") (of "grype")

  unfoldable pub cve_http : Plan → Option String
  cve_http plan =
      keep_if (is_http scheme (proxy_for plan "cve_bin_tool")) (proxy_for plan "cve_bin_tool")

  -- The assignments of the file, in order.
  unfoldable pub assignments : Plan → Assignments
  assignments plan =
      http_lines (http_url plan)
      ++ (socks_lines (socks_url plan) ++ (cve_lines (cve_http plan) ++ provenance plan.tools))

  abbrev pub env_lines : Plan → List String
  env_lines plan =
      "# Generated by `resilient_updates.cli route-plan`. Source this before updaters."
      ∷ str_append "# generated_utc=" plan.generated_utc
      ∷ map line_of (assignments plan)

  unfoldable pub render_env : Plan → String
  render_env plan = str_append (join "\n" (env_lines plan)) "\n"

-- The ends of lines for `splitlines`; between a carriage return and the line feed after it this
-- reads an empty line, which the loader leaves out.
abbrev pub is_break : ℕ → Bool
is_break c = leb 10 c && leb c 13 || leb 28 c && leb c 30 || c == 133 || leb 8232 c && leb c 8233

abbrev pub before_line : Char → List String → List String
before_line c [] = String.◌∷◌ c "" ∷ []
before_line c (w ∷ ws) = String.◌∷◌ c w ∷ ws

-- `text.splitlines()`
unfoldable pub split_lines : String → List String
split_lines String.[] = []
split_lines (String.◌∷◌ c s) =
    let rest = split_lines s in if is_break (code c) then "" ∷ rest else before_line c rest

abbrev pub cons_key : Char → Option (String × String) → Option (String × String)
cons_key c none = none
cons_key c (some (k, v)) = some (String.◌∷◌ c k, v)

-- `line.partition("=")`, where there is one
unfoldable pub partition : String → Option (String × String)
partition String.[] = none
partition (String.◌∷◌ c s) =
    let rest = partition s in if code c == b'=' then some ("", s) else cons_key c rest

abbrev pub assigned : Option (String × String) → Assignments → Assignments
assigned none out = out
assigned (some (k, v)) out = insert (strip k) (strip v) out

-- `not line or line.startswith("#")`
abbrev pub is_skipped : String → Bool
is_skipped String.[] = true
is_skipped (String.◌∷◌ c s) = code c == b'#'

-- One line of the file.
unfoldable pub load_line : String → Assignments → Assignments
load_line raw out =
    let line = strip raw in if is_skipped line then out else assigned (partition line) out

unfoldable pub load_lines : List String → Assignments → Assignments
load_lines [] out = out
load_lines (w ∷ ws) out = load_lines ws (load_line w out)

-- `none` is a file that is not there.
unfoldable pub load_env_file : Option String → Assignments
load_env_file none = []
load_env_file (some text) = load_lines (split_lines text) []
