-- ===== src/Tests/Diffs.antt =====
-- Two runs of Grype, one finding of which went and one came.
use el_sca_ansamble.Prelude.{
  ◌+◌, String, ◌≡◌, not, ◌&&◌, none, some, List, [], ◌∷◌, ◌++◌, map, length, if◌then◌else◌,
}
use el_sca_ansamble.Prelude.Int.{sub_ℕ}
use el_sca_ansamble.Prelude.Keys.{contains, lookup, string_eq, pair_eq}
use el_sca_ansamble.ScannerDiff.Rows.{missing, entries, GrypeMatch, ScanRoot, load_findings}
use el_sca_ansamble.ScannerDiff.Diff.{
  finding_key, dedup_from, diff_runs, severity_count, severity_delta, severity_of,
}
use el_sca_ansamble.ScannerDiff.Counts.{diff_runs-findings}
use el_sca_ansamble.ScannerDiff.Members.{diff_runs-contains, severity_delta-lookup}

abbrev match_of : String → GrypeMatch
match_of id = record {
  id = some id;
  vulnerability_name = none;
  severity = some "High";
  name = some "zlib";
  version = some "1.2";
}

abbrev scan_root : List GrypeMatch → ScanRoot
scan_root matches = record {
  syft = missing ∷ [];
  grype = missing ∷ entries matches ∷ [];
  trivy = [];
  cve_bin_tool = [];
}

abbrev before : ScanRoot
before = scan_root (match_of "CVE-1" ∷ match_of "CVE-1" ∷ match_of "CVE-2" ∷ [])

abbrev after : ScanRoot
after = scan_root (match_of "CVE-2" ∷ match_of "CVE-3" ∷ [])

abbrev key : (String × String) × (String × String)
key = (("CVE-3", "zlib"), ("1.2", "grype"))

diff_runs-findings_example :
    let diff = diff_runs before after in
    (length diff.findings_added + diff.findings_unchanged
      ≡ length (dedup_from finding_key [] (load_findings after)))
    × (length diff.findings_removed + diff.findings_unchanged
        ≡ length (dedup_from finding_key [] (load_findings before)))
diff_runs-findings_example = diff_runs-findings before after

diff_runs-contains_example :
    let diff = diff_runs before after in
    let was = contains key (map finding_key (load_findings before)) in
    let is = contains key (map finding_key (load_findings after)) in
    (contains key (map finding_key diff.findings_added) ≡ (is && not was))
    × (contains key (map finding_key diff.findings_removed) ≡ (was && not is))
diff_runs-contains_example = diff_runs-contains key before after

severity_delta-lookup_example :
    lookup "HIGH" (severity_delta (load_findings before) (load_findings after)) ≡ (
      if contains "HIGH" (map severity_of (load_findings before ++ load_findings after))
      then some (
          sub_ℕ
            (severity_count "HIGH" (load_findings after))
            (severity_count "HIGH" (load_findings before)))
      else none)
severity_delta-lookup_example =
    severity_delta-lookup "HIGH" (load_findings before) (load_findings after)
