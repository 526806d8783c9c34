-- ===== src/CollisionFilter/Summary.antt =====
-- `summarize_dropped`: the dropped findings, one row for each vendor, product and version.
use Prim.Native.String.{compare}
use text.Mathlib.Text.{is_lt}
use el_sca_ansamble.Prelude.{
  ℕ, suc, ◌+◌, ◌≡◌, refl, ◌∙◌, String, Bool, true, false, Option, none, some, List, [], ◌∷◌, arith,
  inl, inr, Bool-cases, if◌then◌else◌,
}
use el_sca_ansamble.Prelude.Keys.{
  HasEquality, ◌==◌, string_eq, pair_eq, ==_refl, add, insert, lookup,
}
use el_sca_ansamble.Prelude.Sort.{insert_sorted, sort}
use el_sca_ansamble.Prelude.Text.{join}
use el_sca_ansamble.CollisionFilter.Finding.{Finding, Dropped, text_of}

-- vendor, (product, version)
abbrev pub RowKey : Type 0
RowKey = String × (String × String)

-- A row, with the evidence seen so far in place of the joined text.
pub record Row : Type 0 where
  pub cves : ℕ
  pub reason : String
  pub seen : List String

unfoldable pub row_key : Finding → RowKey
row_key f = (text_of f.vendor, (text_of f.product, text_of f.version))

abbrev pub note_evidence : String → List String → List String
note_evidence ev seen = if ev == "" then seen else add ev seen

-- `setdefault`, and the updates of the row.
abbrev pub bump : Dropped → Option Row → Row
bump d none = record {
  cves = 1;
  reason = d.dropped_reason;
  seen = note_evidence d.dropped_evidence [];
}
bump d (some row) = record row {
  cves = row.cves + 1;
  seen = note_evidence d.dropped_evidence row.seen;
}

unfoldable pub rows_onto : List Dropped → List (RowKey × Row) → List (RowKey × Row)
rows_onto [] rows = rows
rows_onto (d ∷ ds) rows =
    let key = row_key d.finding in rows_onto ds (insert key (bump d (lookup key rows)) rows)

str_less : String → String → Bool
str_less a b = is_lt (compare a b)

-- `<` on the tuples (vendor, product, version)
unfoldable pub key_less : RowKey × Row → RowKey × Row → Bool
unfolding str_less
key_less ((v, (p, n)), _) ((v', (p', n')), _) =
    if str_less v v'
    then true
    else if str_less v' v
    then false
    else if str_less p p'
    then true
    else if str_less p' p
    then false
    else str_less n n'

pub record Line : Type 0 where
  pub vendor : String
  pub product : String
  pub version : String
  pub cves : ℕ
  pub reason : String
  pub evidence : String

abbrev pub lines : List (RowKey × Row) → List Line
lines [] = []
lines (((v, (p, n)), row) ∷ rows) =
    record {
      vendor = v;
      product = p;
      version = n;
      cves = row.cves;
      reason = row.reason;
      evidence = join "; " row.seen;
    }
    ∷ lines rows

unfoldable pub summarize_dropped : List Dropped → List Line
summarize_dropped dropped = lines (sort key_less (rows_onto dropped []))

-- The CVEs counted on the lines of one vendor, product and version.
abbrev pub counted : RowKey → List Line → ℕ
counted k [] = 0
counted k (l ∷ ls) =
    let rest = counted k ls in
    if (l.vendor, (l.product, l.version)) == k then l.cves + rest else rest

-- The dropped findings of one vendor, product and version.
abbrev pub occurrences : RowKey → List Dropped → ℕ
occurrences k [] = 0
occurrences k (d ∷ ds) =
    let rest = occurrences k ds in if row_key d.finding == k then suc rest else rest

abbrev cost : Option Row → ℕ
cost none = 0
cost (some row) = row.cves

bumped :
    {new c' : ℕ} (here : Bool) (c old : ℕ)
    → c' ≡ suc c
    → new + (if here then c else 0) ≡ old + (if here then c' else 0)
    → new ≡ (if here then suc old else old)
bumped true c old e g = omega arith
bumped false c old e g = omega arith

module _ {K : Type 0} ⦃e : HasEquality K⦄ where
  -- The sum of the counts at a key.
  abbrev total : K → List (K × Row) → ℕ
  total k [] = 0
  total k ((j, row) ∷ rows) = let rest = total k rows in if j == k then row.cves + rest else rest

  total-insert :
      (i k : K) (v : Row) (rows : List (K × Row))
      → total k (insert i v rows) + (if i == k then cost (lookup i rows) else 0)
        ≡ total k rows + (if i == k then v.cves else 0)
  unfolding insert lookup
  total-insert i k v [] = ground arith
  total-insert i k v ((j, row) ∷ rows) = elim (Bool-cases (j == i)) [
    | inl here ↦ rw ((e.same_iff j i).0 here) (rw (==_refl i) (ground arith))
    | inr there ↦
        rw there
          (ground (arith, e.same_iff j k, e.same_iff i k, e.same_iff j i, total-insert i k v rows))
  ]

  total-insert_bumped :
      (i k : K) (change : Option Row → Row) (rows : List (K × Row))
      → ((o : Option Row) → (change o).cves ≡ suc (cost o))
      → total k (insert i (change (lookup i rows)) rows)
        ≡ (if i == k then suc (total k rows) else total k rows)
  total-insert_bumped i k change rows grows =
      let o = lookup i rows in
      bumped (i == k) (cost o) (total k rows) (grows o) (total-insert i k (change o) rows)

counted-lines : (k : RowKey) (rows : List (RowKey × Row)) → counted k (lines rows) ≡ total k rows
counted-lines k [] = refl
counted-lines k ((j, row) ∷ rows) = rw (counted-lines k rows)

total-insert_sorted :
    (k : RowKey) (r : RowKey × Row) (rows : List (RowKey × Row))
    → total k (insert_sorted key_less r rows) ≡ total k (r ∷ rows)
unfolding insert_sorted
total-insert_sorted k r [] = refl
total-insert_sorted k r (s ∷ rows) = elim (Bool-cases (key_less s r)) [
  | inr e ↦ rw e
  | inl e ↦ rw e (ground (arith, total-insert_sorted k r rows))
]

total-sort : (k : RowKey) (rows : List (RowKey × Row)) → total k (sort key_less rows) ≡ total k rows
unfolding sort
total-sort k [] = refl
total-sort k (r ∷ rows) =
    total-insert_sorted k r (sort key_less rows) ∙ ground (arith, total-sort k rows)

bump-cves : (d : Dropped) (o : Option Row) → (bump d o).cves ≡ suc (cost o)
bump-cves d none = refl
bump-cves d (some row) = omega arith

count_step :
    {a c : ℕ} (here : Bool) (b t : ℕ)
    → a ≡ b + c
    → c ≡ (if here then suc t else t)
    → a ≡ (if here then suc b else b) + t
count_step true b t e g = omega arith
count_step false b t e g = omega arith

total-rows_onto :
    (k : RowKey) (ds : List Dropped) (rows : List (RowKey × Row))
    → total k (rows_onto ds rows) ≡ occurrences k ds + total k rows
unfolding rows_onto
total-rows_onto k [] rows = omega arith
total-rows_onto k (d ∷ ds) rows =
    let key = row_key d.finding in
    let e : total k (rows_onto ds (insert key (bump d (lookup key rows)) rows))
        ≡ occurrences k ds + total k (insert key (bump d (lookup key rows)) rows) =
      total-rows_onto k ds (insert key (bump d (lookup key rows)) rows) in
    let g : total k (insert key (bump d (lookup key rows)) rows)
        ≡ (if key == k then suc (total k rows) else total k rows) =
      total-insert_bumped key k (bump d) rows (bump-cves d) in
    count_step (key == k) (occurrences k ds) (total k rows) e g

-- The summary miscounts nothing: for every vendor, product and version, the CVEs counted on its
-- lines are as many as the dropped findings with that vendor, product and version.
pub summarize_dropped-counted :
    (dropped : List Dropped) (k : RowKey)
    → counted k (summarize_dropped dropped) ≡ occurrences k dropped
unfolding summarize_dropped
summarize_dropped-counted dropped k =
    counted-lines k (sort key_less (rows_onto dropped []))
    ∙ (total-sort k (rows_onto dropped []) ∙ (total-rows_onto k dropped [] ∙ omega arith))
