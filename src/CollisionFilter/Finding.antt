-- ===== src/CollisionFilter/Finding.antt =====
-- The rows that the filters read. A key that a row lacks is `none`.
use el_sca_ansamble.Prelude.{String, Bool, false, ◌&&◌, not, Option, none, some}
use el_sca_ansamble.Prelude.Keys.{◌==◌, string_eq}
use el_sca_ansamble.Prelude.Text.{upper}

pub record Finding : Type 0 where
  pub tool : Option String
  pub id : Option String
  pub vendor : Option String
  pub product : Option String
  pub version : Option String
  pub paths : Option String

-- `dict(finding, dropped_reason=..., dropped_evidence=...)`
pub record Dropped : Type 0 where
  pub finding : Finding
  pub dropped_reason : String
  pub dropped_evidence : String

-- `str(row.get(key) or "")`
abbrev pub text_of : Option String → String
text_of none = ""
text_of (some s) = s

-- `f"{row.get(key)}"`
abbrev pub shown : Option String → String
shown none = "None"
shown (some s) = s

abbrev pub is_text : Option String → String → Bool
is_text none t = false
is_text (some s) t = s == t

unfoldable pub is_cve_bin_tool : Finding → Bool
is_cve_bin_tool finding = is_text finding.tool "cve-bin-tool"

unfoldable pub is_real_vendor : Finding → Bool
unfolding upper
is_real_vendor finding =
    let vendor = text_of finding.vendor in
    is_text finding.tool "cve-bin-tool" && not (vendor == "") && not (upper vendor == "UNKNOWN")
