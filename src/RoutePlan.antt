-- ===== src/RoutePlan.antt =====
-- resilient_updates/route_plan.py: the egress that a tool's updater is given. The scheme that
-- `urlparse` reads in a URL is a parameter, and the probes have been made.
pub mod Env
pub mod RoundTrip
use el_sca_ansamble.Prelude.{
  String, ◌≡◌, ◌⊎◌, refl, sym, Bool, true, false, not, ◌&&◌, ◌||◌, Option, none, some, List, [],
  ◌∷◌, any, arith, Bool-cases, inl, inr, if◌then◌else◌,
}
use el_sca_ansamble.Prelude.Keys.{◌==◌, string_eq, lookup}
use el_sca_ansamble.Prelude.Text.{join}

-- A source of a tool, with the status of each transport's probe.
pub record ProbeRow : Type 0 where
  pub tool : String
  pub chains : List (String × String)

pub record Egress : Type 0 where
  pub transport : Option String
  pub proxy_url : Option String
  pub socks_ok : Bool
  pub reason : String

abbrev pub Transports : Type 0
Transports = List (String × List (String × String))

abbrev pub is_ok_status : Option String → Bool
is_ok_status none = false
is_ok_status (some s) = s == "ok" || s == "local"

-- `a or b`, for texts that may be absent
abbrev pub either_text : Option String → Option String → Option String
either_text none b = b
either_text (some a) b = if a == "" then b else some a

abbrev pub proxies_or_empty : Option (List (String × String)) → List (String × String)
proxies_or_empty none = []
proxies_or_empty (some proxies) = proxies

unfoldable pub transport_url : List (String × String) → Option String
transport_url proxies = either_text (lookup "https" proxies) (lookup "http" proxies)

abbrev pub url_of : Transports → String → Option String
url_of transports name = transport_url (proxies_or_empty (lookup name transports))

abbrev pub is_truthy : Option String → Bool
is_truthy none = false
is_truthy (some s) = not (s == "")

-- Some source of the tool answers over the transport.
unfoldable pub reaches : String → List ProbeRow → String → Bool
reaches tool rows name = any (λ r. r.tool == tool && is_ok_status (lookup name r.chains)) rows

module _ (scheme : String → String) where
  unfoldable pub is_http : Option String → Bool
  is_http none = false
  is_http (some url) = not (url == "") && (scheme url == "http" || scheme url == "https")

  -- The guards of the loop over the proxied transports.
  unfoldable pub is_eligible : String → List ProbeRow → Transports → String → Bool
  is_eligible tool rows transports name =
      not (name == "direct")
      && (is_truthy (url_of transports name)
          && ((not (tool == "cve_bin_tool") || is_http (url_of transports name))
              && reaches tool rows name))

  unfoldable pub first_eligible : String → List ProbeRow → Transports → List String → Option String
  first_eligible tool rows transports [] = none
  first_eligible tool rows transports (name ∷ names) =
      let rest = first_eligible tool rows transports names in
      if is_eligible tool rows transports name then some name else rest

  unfoldable pub egress_of : String → List ProbeRow → Transports → Option String → Egress
  egress_of tool rows transports (some chosen) =
      let url = url_of transports chosen in
      record {
        transport = some chosen;
        proxy_url = url;
        socks_ok = is_http url || not (tool == "cve_bin_tool");
        reason = join "" ("reaches a source via " ∷ chosen ∷ []);
      }
  egress_of tool rows transports none =
      if reaches tool rows "direct"
      then record {
        transport = some "direct";
        proxy_url = none;
        socks_ok = not (tool == "cve_bin_tool");
        reason = "direct route works";
      }
      else record {
        transport = none;
        proxy_url = none;
        socks_ok = not (tool == "cve_bin_tool");
        reason = "no reachable route";
      }

  unfoldable pub select_for_tool : String → List ProbeRow → List String → Transports → Egress
  select_for_tool tool rows order transports =
      egress_of tool rows transports (first_eligible tool rows transports order)

  first_eligible-eligible :
      (tool : String) (rows : List ProbeRow) (transports : Transports) (names : List String)
      (chosen : String)
      → first_eligible tool rows transports names ≡ some chosen
      → is_eligible tool rows transports chosen ≡ true
  unfolding first_eligible
  first_eligible-eligible tool rows transports [] chosen h = absurd (ground (arith, h))
  first_eligible-eligible tool rows transports (name ∷ names) chosen h =
      elim (Bool-cases (is_eligible tool rows transports name)) [
        | inl e ↦ let same : name ≡ chosen = ground (arith, e, h) in rw (sym same) e
        | inr e ↦ first_eligible-eligible tool rows transports names chosen (ground (arith, e, h))
      ]

  -- The transport that a tool is given reaches a source of the tool, the direct route included.
  pub select_for_tool-reaches :
      (tool : String) (rows : List ProbeRow) (order : List String) (transports : Transports)
      (name : String)
      → (select_for_tool tool rows order transports).transport ≡ some name
      → reaches tool rows name ≡ true
  unfolding select_for_tool egress_of is_eligible
  select_for_tool-reaches tool rows order transports name h =
      of_choice (first_eligible tool rows transports order)
        (first_eligible-eligible tool rows transports order) h
    where
      of_choice :
          (o : Option String)
          → ((chosen : String) → o ≡ some chosen → is_eligible tool rows transports chosen ≡ true)
          → (egress_of tool rows transports o).transport ≡ some name
          → reaches tool rows name ≡ true
      of_choice (some chosen) k e =
          let same : chosen ≡ name = ground (arith, e) in
          rw (sym same) (ground (arith, k chosen refl))
      of_choice none k e = elim (Bool-cases (reaches tool rows "direct")) [
        | inl d ↦ let same : "direct" ≡ name = ground (arith, d, e) in rw (sym same) d
        | inr d ↦ absurd (ground (arith, d, e))
      ]

  -- cve-bin-tool is never given a proxy that is not an HTTP proxy: its proxy URL is absent or has
  -- an HTTP scheme.
  pub select_for_tool-http :
      (rows : List ProbeRow) (order : List String) (transports : Transports)
      → let url = (select_for_tool "cve_bin_tool" rows order transports).proxy_url in
        (url ≡ none) ⊎ (is_http url ≡ true)
  unfolding select_for_tool egress_of is_eligible
  select_for_tool-http rows order transports =
      of_choice (first_eligible "cve_bin_tool" rows transports order)
        (first_eligible-eligible "cve_bin_tool" rows transports order)
    where
      of_choice :
          (o : Option String)
          → ((chosen : String)
              → o ≡ some chosen
              → is_eligible "cve_bin_tool" rows transports chosen ≡ true)
          → let url = (egress_of "cve_bin_tool" rows transports o).proxy_url in
            (url ≡ none) ⊎ (is_http url ≡ true)
      of_choice (some chosen) k = inr (ground (arith, k chosen refl))
      of_choice none k = elim (Bool-cases (reaches "cve_bin_tool" rows "direct")) [
        | inl d ↦ rw d (inl refl)
        | inr d ↦ rw d (inl refl)
      ]
