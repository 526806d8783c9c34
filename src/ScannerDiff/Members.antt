-- ===== src/ScannerDiff/Members.antt =====
-- Which findings and severities `diff_runs` reports.
use el_sca_ansamble.Prelude.{
  String, not, ◌≡◌, refl, sym, ap, inl, inr, Bool-cases, ◌&&◌, ◌||◌, some, none, List, [], ◌∷◌,
  ◌++◌, map, arith, if◌then◌else◌,
}
use el_sca_ansamble.Prelude.Int.{sub_ℕ}
use el_sca_ansamble.Prelude.Keys.{HasEquality, ◌==◌, ==_iff, contains, lookup, string_eq, pair_eq}
use el_sca_ansamble.Prelude.Sort.{sort, insert_sorted}
use el_sca_ansamble.ScannerDiff.Rows.{FindingRow, ScanRoot, load_findings}
use el_sca_ansamble.ScannerDiff.Diff.{
  finding_key, key_set, rows_in, dedup_from, minus, diff_rows, diff_runs, severity_count,
  severity_delta, deltas, severity_of, str_less,
}
use el_sca_ansamble.ScannerDiff.Counts.{contains-minus, contains-key_set, dedup_from-keys}

module _ {A K : Type 0} ⦃e : HasEquality K⦄ (key : A → K) where
  contains-rows_in :
      (k : K) (ks : List K) (rows : List A)
      → contains k (map key (rows_in key ks rows)) ≡ (contains k (map key rows) && contains k ks)
  unfolding contains rows_in
  contains-rows_in k ks [] = refl
  contains-rows_in k ks (r ∷ rows) = ground (
    arith,
    e.same_iff k (key r),
    contains-rows_in k ks rows,
    λ (h : k ≡ key r). ap (λ z. contains z ks) h,
  )

  -- The rows of one run whose keys are new, in terms of the raw rows of the two runs.
  contains-new :
      (k : K) (xs ys : List A)
      → let x = dedup_from key [] xs in
        let y = dedup_from key [] ys in
        contains k (map key (rows_in key (minus (key_set key x) (key_set key y)) x))
        ≡ (contains k (map key xs) && not (contains k (map key ys)))
  unfolding contains
  contains-new k xs ys =
      let x = dedup_from key [] xs in
      let y = dedup_from key [] ys in
      ground (
        arith,
        contains-rows_in k (minus (key_set key x) (key_set key y)) x,
        contains-minus k (key_set key x) (key_set key y),
        contains-key_set key k x,
        contains-key_set key k y,
        dedup_from-keys key k [] xs,
        dedup_from-keys key k [] ys,
      )

-- A finding is reported as added exactly when its id, product, version and tool stand in a row of
-- the later run and in none of the earlier run, and as removed exactly when it is the other way round.
pub diff_runs-contains :
    (k : (String × String) × (String × String)) (before after : ScanRoot)
    → let diff = diff_runs before after in
      let was = contains k (map finding_key (load_findings before)) in
      let is = contains k (map finding_key (load_findings after)) in
      (contains k (map finding_key diff.findings_added) ≡ (is && not was))
      × (contains k (map finding_key diff.findings_removed) ≡ (was && not is))
unfolding diff_runs diff_rows
diff_runs-contains k before after = (
  contains-new finding_key k (load_findings after) (load_findings before),
  contains-new finding_key k (load_findings before) (load_findings after),
)

contains-insert_sorted :
    (s x : String) (xs : List String)
    → contains s (insert_sorted str_less x xs) ≡ (s == x || contains s xs)
unfolding contains insert_sorted
contains-insert_sorted s x [] = refl
contains-insert_sorted s x (y ∷ ys) = ground (arith, contains-insert_sorted s x ys)

contains-sort : (s : String) (xs : List String) → contains s (sort str_less xs) ≡ contains s xs
unfolding contains sort
contains-sort s [] = refl
contains-sort s (x ∷ xs) =
    ground (arith, contains-insert_sorted s x (sort str_less xs), contains-sort s xs)

lookup-deltas :
    (s : String) (before after : List FindingRow) (ss : List String)
    → lookup s (deltas before after ss) ≡ (
        if contains s ss
        then some (sub_ℕ (severity_count s after) (severity_count s before))
        else none)
unfolding contains lookup
lookup-deltas s before after [] = refl
lookup-deltas s before after (x ∷ ss) = elim (Bool-cases (x == s)) [
  | inl same ↦
      let h = (==_iff x s).0 same in
      rw (same, (==_iff s x).1 (sym h))
        (ap (λ z. some (sub_ℕ (severity_count z after) (severity_count z before))) h)
  | inr other ↦ ground (arith, ==_iff x s, ==_iff s x, lookup-deltas s before after ss)
]

-- The severity table has an entry for exactly the severities that occur in one of the two lists
-- of rows, and the entry is the count in the later list less the count in the earlier one.
pub severity_delta-lookup :
    (s : String) (before after : List FindingRow)
    → lookup s (severity_delta before after) ≡ (
        if contains s (map severity_of (before ++ after))
        then some (sub_ℕ (severity_count s after) (severity_count s before))
        else none)
unfolding severity_delta
severity_delta-lookup s before after =
    rw
      (
        sym (contains-key_set severity_of s (before ++ after)),
        sym (contains-sort s (key_set severity_of (before ++ after))),
      )
      (lookup-deltas s before after (sort str_less (key_set severity_of (before ++ after))))
