-- ===== src/ScannerDiff/Rows.antt =====
-- The rows of two scanner runs, extracted from the raw reports, and the shared loaders of _io.py.
-- A report is a file that is missing or unreadable, a JSON value of another shape, or the entries
-- that the extraction reads; an absent key of an entry is `none`.
use el_sca_ansamble.Prelude.{String, Option, none, some, List, [], ◌∷◌, ◌++◌, map, if◌then◌else◌}
use el_sca_ansamble.Prelude.Keys.{◌==◌, string_eq}
use el_sca_ansamble.Prelude.Text.{upper}

pub data Report (A : Type 0) : Type 0 where
  missing other_shape : Report A
  entries : List A → Report A

-- The first report that could be read at all.
unfoldable pub first_json : {A : Type 0} → List (Report A) → Report A
first_json [] = missing
first_json (missing ∷ reports) = first_json reports
first_json (r ∷ reports) = r

-- An empty text is falsy.
unfoldable pub normalize_severity : Option String → String
unfolding upper
normalize_severity none = "UNKNOWN"
normalize_severity (some value) = if value == "" then "UNKNOWN" else upper value

pub record Component : Type 0 where
  pub name : String
  pub version : String
  pub type : String
  pub purl : String

pub record FindingRow : Type 0 where
  pub tool : String
  pub id : String
  pub severity : String
  pub product : String
  pub version : String

pub record SyftArtifact : Type 0 where
  pub name : Option String
  pub version : Option String
  pub type : Option String
  pub purl : Option String

pub record GrypeMatch : Type 0 where
  pub id : Option String
  pub vulnerability_name : Option String
  pub severity : Option String
  pub name : Option String
  pub version : Option String

pub record TrivyVulnerability : Type 0 where
  pub id : Option String
  pub severity : Option String
  pub pkg : Option String
  pub version : Option String

pub record CveEntry : Type 0 where
  pub cve_number : Option String
  pub cve : Option String
  pub severity : Option String
  pub product : Option String
  pub version : Option String

-- `str(row.get(key, default))`
abbrev pub get_text : String → Option String → String
get_text default none = default
get_text default (some s) = s

-- `a or b`, for a key that may be absent or empty
abbrev pub text_or : Option String → String → String
text_or none b = b
text_or (some s) b = if s == "" then b else s

unfoldable pub components_from_syft : Report SyftArtifact → List Component
components_from_syft (entries items) =
    map
      (λ item. record {
        name = get_text "" item.name;
        version = get_text "" item.version;
        type = get_text "" item.type;
        purl = get_text "" item.purl;
      })
      items
components_from_syft _ = []

unfoldable pub findings_from_grype : Report GrypeMatch → List FindingRow
findings_from_grype (entries matches) =
    map
      (λ match. record {
        tool = "grype";
        id = text_or match.id (text_or match.vulnerability_name "UNKNOWN");
        severity = normalize_severity match.severity;
        product = get_text "" match.name;
        version = get_text "" match.version;
      })
      matches
findings_from_grype _ = []

-- The vulnerabilities of one result.
unfoldable pub trivy_rows : List TrivyVulnerability → List FindingRow
trivy_rows vulnerabilities =
    map
      (λ entry. record {
        tool = "trivy";
        id = get_text "UNKNOWN" entry.id;
        severity = normalize_severity entry.severity;
        product = get_text "" entry.pkg;
        version = get_text "" entry.version;
      })
      vulnerabilities

abbrev trivy_results : List (List TrivyVulnerability) → List FindingRow
trivy_results [] = []
trivy_results (r ∷ rs) = trivy_rows r ++ trivy_results rs

unfoldable pub findings_from_trivy : Report (List TrivyVulnerability) → List FindingRow
unfolding trivy_rows
findings_from_trivy (entries results) = trivy_results results
findings_from_trivy _ = []

unfoldable pub findings_from_cve_bin_tool : Report CveEntry → List FindingRow
findings_from_cve_bin_tool (entries rows) =
    map
      (λ entry. record {
        tool = "cve-bin-tool";
        id = text_or entry.cve_number (get_text "UNKNOWN" entry.cve);
        severity = normalize_severity entry.severity;
        product = get_text "" entry.product;
        version = get_text "" entry.version;
      })
      rows
findings_from_cve_bin_tool _ = []

-- A scan directory: the two places of each report.
pub record ScanRoot : Type 0 where
  pub syft : List (Report SyftArtifact)
  pub grype : List (Report GrypeMatch)
  pub trivy : List (Report (List TrivyVulnerability))
  pub cve_bin_tool : List (Report CveEntry)

unfoldable pub load_findings : ScanRoot → List FindingRow
unfolding first_json findings_from_grype findings_from_trivy findings_from_cve_bin_tool
    normalize_severity
load_findings root =
    findings_from_grype (first_json root.grype)
    ++ (findings_from_trivy (first_json root.trivy)
        ++ findings_from_cve_bin_tool (first_json root.cve_bin_tool))

unfoldable pub load_components : ScanRoot → List Component
unfolding first_json components_from_syft
load_components root = components_from_syft (first_json root.syft)
