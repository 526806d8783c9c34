-- ===== src/ScannerDiff/Counts.antt =====
-- The counts of `diff_runs` add up to the rows of the two runs.
use el_sca_ansamble.Prelude.{
  suc, true, false, not, ◌≡◌, refl, ap, ◌∙◌, inl, inr, Bool-cases, ◌&&◌, List, [], ◌∷◌, ◌++◌, map,
  length, All, ◌+◌, arith, if◌then◌else◌,
}
use el_sca_ansamble.Prelude.Keys.{
  HasEquality, ==_iff, contains, contains-add, add, add-Unrepeated, Unrepeated, common, common_comm,
  string_eq, pair_eq,
}
use el_sca_ansamble.ScannerDiff.Rows.{ScanRoot, load_findings}
use el_sca_ansamble.ScannerDiff.Diff.{
  finding_key, key_set, rows_in, dedup_from, minus, diff_rows, diff_runs,
}

module _ {K : Type 0} ⦃e : HasEquality K⦄ where
  pub contains-minus :
      (k : K) (xs ys : List K) → contains k (minus xs ys) ≡ (contains k xs && not (contains k ys))
  unfolding contains minus
  contains-minus k [] ys = refl
  contains-minus k (x ∷ xs) ys =
      ground
        (arith, e.same_iff k x, contains-minus k xs ys, λ (h : k ≡ x). ap (λ z. contains z ys) h)

  common-append :
      (xs : List K) (k : K) (ys : List K)
      → common (xs ++ k ∷ []) ys ≡ (if contains k ys then suc (common xs ys) else common xs ys)
  unfolding common
  common-append [] k ys = refl
  common-append (x ∷ xs) k ys = ground (arith, common-append xs k ys)

module _ {A K : Type 0} ⦃e : HasEquality K⦄ (key : A → K) where
  pub contains-key_set :
      (k : K) (rows : List A) → contains k (key_set key rows) ≡ contains k (map key rows)
  unfolding key_set contains
  contains-key_set k [] = refl
  contains-key_set k (r ∷ rows) =
      ground (arith, contains-add k (key r) (key_set key rows), contains-key_set k rows)

  pub key_set-Unrepeated : (rows : List A) → Unrepeated (key_set key rows)
  unfolding key_set
  key_set-Unrepeated [] = tt
  key_set-Unrepeated (r ∷ rows) =
      add-Unrepeated (key r) (key_set key rows) (key_set-Unrepeated rows)

  -- A key of `seen` is no key of the result.
  dedup_from-seen :
      (k : K) (seen : List K) (rows : List A)
      → contains k seen ≡ true
      → contains k (map key (dedup_from key seen rows)) ≡ false
  unfolding dedup_from contains
  dedup_from-seen k seen [] h = refl
  dedup_from-seen k seen (r ∷ rows) h = elim (Bool-cases (contains (key r) seen)) [
    | inl c ↦ rw c (dedup_from-seen k seen rows h)
    | inr c ↦ rw c (ground (arith, ==_iff k (key r), dedup_from-seen k (key r ∷ seen) rows))
  ]

  pub dedup_from-Unrepeated :
      (seen : List K) (rows : List A) → Unrepeated (map key (dedup_from key seen rows))
  unfolding dedup_from contains
  dedup_from-Unrepeated seen [] = tt
  dedup_from-Unrepeated seen (r ∷ rows) = elim (Bool-cases (contains (key r) seen)) [
    | inl c ↦ rw c (dedup_from-Unrepeated seen rows)
    | inr c ↦ rw c (
      dedup_from-seen (key r) (key r ∷ seen) rows (ground (arith, ==_iff (key r) (key r))),
      dedup_from-Unrepeated (key r ∷ seen) rows,
    )
  ]

  -- Every key of the rows that is not in `seen` stays.
  pub dedup_from-keys :
      (k : K) (seen : List K) (rows : List A)
      → contains k (map key (dedup_from key seen rows))
        ≡ (contains k (map key rows) && not (contains k seen))
  unfolding dedup_from contains
  dedup_from-keys k seen [] = refl
  dedup_from-keys k seen (r ∷ rows) = elim (Bool-cases (contains (key r) seen)) [
    | inl c ↦ rw c (ground (arith, ==_iff k (key r), dedup_from-keys k seen rows))
    | inr c ↦ rw c (ground (arith, ==_iff k (key r), dedup_from-keys k (key r ∷ seen) rows))
  ]

  -- The rows outside `bs` and the keys shared with `bs` make up all rows.
  rows_in-minus :
      (ks bs : List K) (rows : List A)
      → Unrepeated (map key rows)
      → All (λ r. contains (key r) ks ≡ true) rows
      → length (rows_in key (minus ks bs) rows) + common (key_set key rows) bs ≡ length rows
  unfolding rows_in key_set add common
  rows_in-minus ks bs [] u h = refl
  rows_in-minus ks bs (r ∷ rows) u h =
      rw (contains-key_set (key r) rows, u.0, common-append (key_set key rows) (key r) bs)
        (ground (arith, contains-minus (key r) ks bs, rows_in-minus ks bs rows u.1 h.1))

  All-key_set :
      (ks : List K) (rows : List A)
      → ((k : K) → contains k (map key rows) ≡ true → contains k ks ≡ true)
      → All (λ r. contains (key r) ks ≡ true) rows
  unfolding contains
  All-key_set ks [] h = tt
  All-key_set ks (r ∷ rows) h = (
    h (key r) (ground (arith, ==_iff (key r) (key r))),
    All-key_set ks rows (λ k i. h k (ground (arith, i))),
  )

  pub rows_in-counted :
      (bs : List K) (rows : List A)
      → Unrepeated (map key rows)
      → length (rows_in key (minus (key_set key rows) bs) rows) + common (key_set key rows) bs
        ≡ length rows
  rows_in-counted bs rows u =
      rows_in-minus (key_set key rows) bs rows u
        (All-key_set (key_set key rows) rows (λ k i. contains-key_set k rows ∙ i))

-- The findings that stay and those that come make up the deduplicated findings of the later run,
-- and the findings that stay and those that go those of the earlier run.
pub diff_runs-findings :
    (before after : ScanRoot)
    → let diff = diff_runs before after in
      (length diff.findings_added + diff.findings_unchanged
        ≡ length (dedup_from finding_key [] (load_findings after)))
      × (length diff.findings_removed + diff.findings_unchanged
          ≡ length (dedup_from finding_key [] (load_findings before)))
unfolding diff_runs diff_rows
diff_runs-findings before after =
    let b = dedup_from finding_key [] (load_findings before) in
    let a = dedup_from finding_key [] (load_findings after) in
    (
      rw
          (common_comm (key_set finding_key b) (key_set finding_key a)
            (key_set-Unrepeated finding_key b) (key_set-Unrepeated finding_key a))
          (rows_in-counted finding_key (key_set finding_key b) a
            (dedup_from-Unrepeated finding_key [] (load_findings after))),
      rows_in-counted finding_key (key_set finding_key a) b
          (dedup_from-Unrepeated finding_key [] (load_findings before)),
    )
