-- ===== src/ScannerDiff/Diff.antt =====
-- `diff_runs`.
use Prim.Native.String.{compare}
use text.Mathlib.Text.{is_lt}
use el_sca_ansamble.Prelude.{ℕ, suc, String, Bool, List, [], ◌∷◌, ◌++◌, if◌then◌else◌}
use el_sca_ansamble.Prelude.Int.{ℤ, sub_ℕ}
use el_sca_ansamble.Prelude.Keys.{HasEquality, ◌==◌, string_eq, pair_eq, contains, add, common}
use el_sca_ansamble.Prelude.Sort.{sort}
use el_sca_ansamble.ScannerDiff.Rows.{
  Component, FindingRow, ScanRoot, load_findings, load_components,
}

unfoldable pub comp_key : Component → String × String
comp_key row = (row.name, row.version)

unfoldable pub finding_key : FindingRow → (String × String) × (String × String)
finding_key row = ((row.id, row.product), (row.version, row.tool))

module _ {A K : Type 0} ⦃e : HasEquality K⦄ (key : A → K) where
  -- `{key(row) for row in rows}`
  unfoldable pub key_set : List A → List K
  key_set [] = []
  key_set (r ∷ rows) = add (key r) (key_set rows)

  -- `[r for r in rows if key(r) in ks]`
  unfoldable pub rows_in : List K → List A → List A
  rows_in ks [] = []
  rows_in ks (r ∷ rows) =
      let rest = rows_in ks rows in if contains (key r) ks then r ∷ rest else rest

  -- `_dedup`: the first row of each key that is not in `seen`.
  unfoldable pub dedup_from : List K → List A → List A
  dedup_from seen [] = []
  dedup_from seen (r ∷ rows) =
      let rest = dedup_from (if contains (key r) seen then seen else key r ∷ seen) rows in
      if contains (key r) seen then rest else r ∷ rest

module _ {K : Type 0} ⦃e : HasEquality K⦄ where
  -- `xs - ys`
  unfoldable pub minus : List K → List K → List K
  minus [] ys = []
  minus (x ∷ xs) ys = let rest = minus xs ys in if contains x ys then rest else x ∷ rest

pub record DiffSummary : Type 0 where
  pub components_added : List Component
  pub components_removed : List Component
  pub components_unchanged : ℕ
  pub findings_added : List FindingRow
  pub findings_removed : List FindingRow
  pub findings_unchanged : ℕ
  pub severity_delta : List (String × ℤ)

-- `Counter(f["severity"] for f in finds).get(s, 0)`
unfoldable pub severity_count : String → List FindingRow → ℕ
severity_count s [] = 0
severity_count s (f ∷ finds) =
    let rest = severity_count s finds in if f.severity == s then suc rest else rest

abbrev pub str_less : String → String → Bool
str_less a b = is_lt (compare a b)

abbrev pub severity_of : FindingRow → String
severity_of f = f.severity

abbrev pub deltas : List FindingRow → List FindingRow → List String → List (String × ℤ)
deltas before after [] = []
deltas before after (s ∷ ss) =
    (s, sub_ℕ (severity_count s after) (severity_count s before)) ∷ deltas before after ss

-- The severities of both runs, sorted, each with its change.
unfoldable pub severity_delta : List FindingRow → List FindingRow → List (String × ℤ)
severity_delta before after =
    deltas before after (sort str_less (key_set severity_of (before ++ after)))

unfoldable pub diff_rows :
    List Component → List Component → List FindingRow → List FindingRow → DiffSummary
diff_rows before_comps after_comps before after =
    let before_keys = key_set comp_key before_comps in
    let after_keys = key_set comp_key after_comps in
    let before_finds = dedup_from finding_key [] before in
    let after_finds = dedup_from finding_key [] after in
    let before_fkeys = key_set finding_key before_finds in
    let after_fkeys = key_set finding_key after_finds in
    record {
      components_added = rows_in comp_key (minus after_keys before_keys) after_comps;
      components_removed = rows_in comp_key (minus before_keys after_keys) before_comps;
      components_unchanged = common before_keys after_keys;
      findings_added = rows_in finding_key (minus after_fkeys before_fkeys) after_finds;
      findings_removed = rows_in finding_key (minus before_fkeys after_fkeys) before_finds;
      findings_unchanged = common before_fkeys after_fkeys;
      severity_delta = severity_delta before_finds after_finds;
    }

unfoldable pub diff_runs : ScanRoot → ScanRoot → DiffSummary
diff_runs before after =
    diff_rows (load_components before) (load_components after) (load_findings before)
      (load_findings after)
