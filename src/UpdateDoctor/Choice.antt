-- ===== src/UpdateDoctor/Choice.antt =====
-- update_doctor.py and route_plan.py: the choice of a proxy from the probes, and the plan.
use el_sca_ansamble.Prelude.{
  ℕ, zero, suc, ◌-◌, String, Bool, true, false, not, ◌&&◌, Option, none, some, List, [], ◌∷◌, ltb,
  if◌then◌else◌, ◌≡◌, ◌⊎◌, arith,
}
use mathlib.Core.Path.{subst}
use Prim.Native.String.{◌++◌ as str_append}
use el_sca_ansamble.Prelude.Keys.{◌==◌, string_eq, lookup, keys}
use el_sca_ansamble.Prelude.Text.{remove_prefix, text_length}
use el_sca_ansamble.RoutePlan.{
  ProbeRow, Egress, Transports, is_truthy, is_http, url_of, select_for_tool, select_for_tool-http,
}
use el_sca_ansamble.UpdateDoctor.Transports.{discover_transports, discover_container_transports}
use el_sca_ansamble.UpdateDoctor.Matrix.{
  DoctorConfig, Prober, Row, Matrix, build_matrix, rows_of_tools, tool_layers,
}

-- A name counts unless it is absent, empty or "direct".
abbrev counts_as : Option String → Bool
counts_as none = false
counts_as (some name) = not (name == "") && not (name == "direct")

abbrev bump : String → List (String × ℕ) → List (String × ℕ)
bump name [] = (name, 1) ∷ []
bump name ((n, k) ∷ counts) = if n == name then (n, suc k) ∷ counts else (n, k) ∷ bump name counts

-- `Counter(...)`, in the order of the first picks
unfoldable pub count_picks : List (Option String) → List (String × ℕ) → List (String × ℕ)
count_picks [] counts = counts
count_picks (none ∷ picks) counts = count_picks picks counts
count_picks (some name ∷ picks) counts =
    count_picks picks (if counts_as (some name) then bump name counts else counts)

-- `counts.most_common(1)`: the first of the entries with the highest count
abbrev better : String × ℕ → Option (String × ℕ) → Option (String × ℕ)
better e none = some e
better e (some f) = if ltb e.1 f.1 then some f else some e

unfoldable pub most_common : List (String × ℕ) → Option (String × ℕ)
most_common [] = none
most_common (e ∷ counts) = better e (most_common counts)

abbrev is_here : Option String → Bool
is_here none = false
is_here (some rest) = true

-- `s.replace(old, new)` for a nonempty `old`, where `skip` characters are still to be left out.
unfoldable pub replace_from : String → String → ℕ → String → String
replace_from old new skip String.[] = ""
replace_from old new (suc skip) (String.◌∷◌ c s) = replace_from old new skip s
replace_from old new zero (String.◌∷◌ c s) =
    let found = str_append new (replace_from old new (text_length old - 1) s) in
    let passed = String.◌∷◌ c (replace_from old new zero s) in
    if is_here (remove_prefix old (String.◌∷◌ c s)) then found else passed

unfoldable pub translate_for_container : String → String
translate_for_container url =
    replace_from "localhost" "host.docker.internal" 0
      (replace_from "127.0.0.1" "host.docker.internal" 0 url)

abbrev names_of : Option (String × ℕ) → Option String
names_of none = none
names_of (some (name, count)) = some name

abbrev pub picks_of : List (String × Option String) → List (Option String)
picks_of [] = []
picks_of ((tool, pick) ∷ rest) = pick ∷ picks_of rest

abbrev proxy_url_of : Transports → Option String → Option String
proxy_url_of transports none = none
proxy_url_of transports (some name) =
    if is_truthy (url_of transports name) then url_of transports name else none

abbrev translated : Bool → Option String → Option String
translated for_container none = none
translated for_container (some url) =
    if for_container then some (translate_for_container url) else some url

abbrev from_matrix : Transports → Bool → Option Matrix → Option (Option String)
from_matrix transports for_container none = none
from_matrix transports for_container (some m) = some (
    translated for_container
      (proxy_url_of transports (names_of (most_common (count_picks (picks_of m.recommended) [])))))

-- The outer `none` is an exception.
unfoldable pub recommended_proxy :
    DoctorConfig
    → (String → Option String)
    → (String → ℕ → Bool)
    → Prober
    → Bool
    → Option (Option String)
recommended_proxy config environ opener probe for_container =
    from_matrix (discover_transports config.proxy environ opener) for_container
      (build_matrix config environ opener probe)

-- route_plan.py from here on.
abbrev pub probe_rows : List Row → List ProbeRow
probe_rows [] = []
probe_rows (r ∷ rows) = record { tool = r.tool; chains = r.chains } ∷ probe_rows rows

pub record RoutePlan : Type 0 where
  pub transports : List String
  pub rows : List Row
  pub plan : List (String × Egress)

module _ (scheme : String → String) where
  abbrev pub plan_for :
      List (String × List String) → List ProbeRow → Transports → List (String × Egress)
  plan_for [] rows transports = []
  plan_for ((tool, layers) ∷ tools) rows transports =
      (tool, select_for_tool scheme tool rows (keys transports) transports)
      ∷ plan_for tools rows transports

  abbrev pub plan_with : Transports → Option (List Row) → Option RoutePlan
  plan_with transports none = none
  plan_with transports (some rows) = some (record {
    transports = keys transports;
    rows = rows;
    plan = plan_for tool_layers (probe_rows rows) transports;
  })

  -- `none` is an exception.
  unfoldable pub build_plan : DoctorConfig → (String → ℕ → Bool) → Prober → Bool → Option RoutePlan
  build_plan config opener probe sidecars =
      let transports = discover_container_transports config.proxy opener sidecars in
      plan_with transports (rows_of_tools config probe transports tool_layers)

abbrev egress_url : Option Egress → Option String
egress_url none = none
egress_url (some e) = e.proxy_url

unfoldable pub chosen_proxy_for_tool : RoutePlan → String → Option String
chosen_proxy_for_tool plan tool = egress_url (lookup tool plan.plan)

abbrev transports_of : List (String × Egress) → List (Option String)
transports_of [] = []
transports_of ((tool, e) ∷ plan) = e.transport ∷ transports_of plan

-- _recommended_overall
unfoldable pub recommended_overall : RoutePlan → Option String
recommended_overall plan = names_of (most_common (count_picks (transports_of plan.plan) []))

module _ (scheme : String → String) where
  plan_with-http :
      (transports : Transports) (rows : Option (List Row)) (p : RoutePlan)
      → plan_with scheme transports rows ≡ some p
      → let url = chosen_proxy_for_tool p "cve_bin_tool" in
        (url ≡ none) ⊎ (is_http scheme url ≡ true)
  unfolding chosen_proxy_for_tool lookup
  plan_with-http transports none p e = absurd (ground arith)
  plan_with-http transports (some rows) p e =
      subst
        (λ (q : RoutePlan).
          (chosen_proxy_for_tool q "cve_bin_tool" ≡ none)
          ⊎ (is_http scheme (chosen_proxy_for_tool q "cve_bin_tool") ≡ true))
        (some_inj _ p e)
        (select_for_tool-http scheme (probe_rows rows) (keys transports) transports)
    where
      some_inj : (a b : RoutePlan) → some a ≡ some b → a ≡ b
      some_inj a b e = ground arith

  -- In every plan that build_plan returns, the proxy of cve-bin-tool is absent or has an HTTP
  -- scheme, whatever answers the probes give.
  pub build_plan-http :
      (config : DoctorConfig) (opener : String → ℕ → Bool) (probe : Prober) (sidecars : Bool)
      (p : RoutePlan)
      → build_plan scheme config opener probe sidecars ≡ some p
      → let url = chosen_proxy_for_tool p "cve_bin_tool" in
        (url ≡ none) ⊎ (is_http scheme url ≡ true)
  unfolding build_plan
  build_plan-http config opener probe sidecars p e =
      plan_with-http (discover_container_transports config.proxy opener sidecars) _ p e
