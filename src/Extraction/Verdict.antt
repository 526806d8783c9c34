-- ===== src/Extraction/Verdict.antt =====
-- What the manifest of a run says: each archive is taken once, no deeper than allowed, and a run
-- that passes has unpacked all of them.
use el_sca_ansamble.Prelude.{
  ℕ, ◌≤◌, String, ◌≡◌, refl, ap, ◌∙◌, Bool, true, false, Option, none, some, List, [], ◌∷◌, ◌++◌,
  All, All-append, All-map, arith, Bool-cases, inl, inr,
}
use el_sca_ansamble.Prelude.Keys.{
  ==_iff, string_eq, list_eq, contains, add, contains-add, Unrepeated, append-Unrepeated,
}
use el_sca_ansamble.Extraction.Limits.{Example, text_of}
use el_sca_ansamble.Extraction.Names.{PathParts}
use el_sca_ansamble.Extraction.Members.{Run, Step}
use el_sca_ansamble.Extraction.Archive.{Unpacking}
use el_sca_ansamble.Extraction.Queue.{
  Options, World, Item, extracted, failed, Failure, Progress, new_item, conclude, take_archive,
  pass, nothing_yet, hash_failures, is_none,
}
use el_sca_ansamble.Extraction.Manifest.{
  Manifest, manifest_of, extract_artifacts, status_of, or_empty_archive, member_failures,
}
use el_sca_ansamble.Extraction.Termination.{with_manifest-some, first_queue-Bounded, drain-keeps}

abbrev pub archives : List Item → List PathParts
archives [] = []
archives (item ∷ items) = item.archive ∷ archives items

-- Unpacked to the end, and hashed.
unfoldable pub IsDone : Item → Type 0
IsDone item = (item.status ≡ extracted) × (item.is_hashed ≡ true)

record IsSound (limit : ℕ) (s : Progress) : Type 0 where
  depths : All (λ (item : Item). item.depth ≤ limit) s.items
  known : All (λ (item : Item). contains item.archive s.seen ≡ true) s.items
  unique : Unrepeated (archives s.items)
  honest : s.failures ≡ [] → All IsDone s.items

absent :
    (p : PathParts) (seen : List PathParts) (items : List Item)
    → All (λ (item : Item). contains item.archive seen ≡ true) items
    → contains p seen ≡ false
    → contains p (archives items) ≡ false
unfolding contains
absent p seen [] h k = refl
absent p seen (item ∷ items) h k = ground (
  arith,
  absent p seen items h.1 k,
  ==_iff p item.archive,
  λ (e : p ≡ item.archive). ap (λ z. contains z seen) e,
  h.0,
)

archives-append : (xs ys : List Item) → archives (xs ++ ys) ≡ archives xs ++ archives ys
archives-append [] ys = refl
archives-append (x ∷ xs) ys = ap (λ z. x.archive ∷ z) (archives-append xs ys)

module _ {A : Type 0} where
  pub append_empty : (xs ys : List A) → xs ++ ys ≡ [] → (xs ≡ []) × (ys ≡ [])
  append_empty [] ys h = (refl, h)
  append_empty (x ∷ xs) ys h = absurd (ground arith)

known-add :
    (p : PathParts) (seen : List PathParts) (items : List Item)
    → All (λ (item : Item). contains item.archive seen ≡ true) items
    → All (λ (item : Item). contains item.archive (add p seen) ≡ true) items
known-add p seen items h =
    All-map _ _ items (λ item k. contains-add item.archive p seen ∙ ground arith) h

-- A new item at the end, for an archive that was not seen, and what was noted with it.
module _ (limit : ℕ) (p : PathParts) (s : Progress) (item : Item) (is : item.archive ≡ p)
    (fits : item.depth ≤ limit) (new : contains p s.seen ≡ false) where
  with_item-IsSound :
      (run : Run) (failures : List Failure)
      → IsSound limit s
      → (failures ≡ [] → (s.failures ≡ []) × IsDone item)
      → IsSound limit (record {
        seen = add p s.seen;
        run = run;
        items = s.items ++ item ∷ [];
        failures = failures;
      })
  with_item-IsSound run failures h done = record {
    depths = All-append _ s.items (item ∷ []) h.depths (fits, tt);
    known =
        All-append _ s.items (item ∷ []) (known-add p s.seen s.items h.known)
          (contains-add item.archive p s.seen ∙ ground (arith, ==_iff item.archive p), tt);
    unique =
        rw (archives-append s.items (item ∷ []), is)
          (append-Unrepeated p (archives s.items) (absent p s.seen s.items h.known new) h.unique);
    honest = λ e. All-append IsDone s.items (item ∷ []) (h.honest (done e).0) ((done e).1, tt);
  }

hashed : (p : PathParts) (e : Option String) → hash_failures p e ≡ [] → is_none e ≡ true
hashed p none h = refl
hashed p (some e) h = absurd (ground arith)

abbrev noted : List (PathParts × ℕ) × Progress → Progress
noted (more, s) = s

module _ (o : Options) (world : World) (p : PathParts) (d : ℕ) (fits : d ≤ o.max_depth) where
  conclude-IsSound :
      (kind : String) (u : Unpacking) (s : Progress) (t : Step)
      → contains p s.seen ≡ false
      → IsSound o.max_depth s
      → IsSound o.max_depth (
          noted (
            conclude o world
              (new_item o world p d kind u)
              u
              (record s {
                seen = add p s.seen;
                failures = s.failures ++ hash_failures p u.hash_error;
              })
              t))
  unfolding conclude new_item IsDone
  conclude-IsSound kind u s (run, none) new h =
      with_item-IsSound o.max_depth p s (new_item o world p d kind u) refl fits new run
        (s.failures ++ hash_failures p u.hash_error) h
        (λ e.
          let parts = append_empty s.failures (hash_failures p u.hash_error) e in
          (parts.0, (refl, hashed p u.hash_error parts.1)))
  conclude-IsSound kind u s (run, some x) new h =
      with_item-IsSound o.max_depth p s
        (record (new_item o world p d kind u) { status = failed (text_of x) }) refl fits new run _ h
        (λ e. absurd (not_empty (append_empty (s.failures ++ hash_failures p u.hash_error) _ e).1))
    where
      not_empty : {f : Failure} → f ∷ [] ≡ [] → ⊥
      not_empty e = ground arith

  take_archive-IsSound :
      (u : Unpacking) (s : Progress) (kind : Option String)
      → contains p s.seen ≡ false
      → IsSound o.max_depth s
      → IsSound o.max_depth (take_archive o world p d u (record s { seen = add p s.seen }) kind).1
  unfolding take_archive
  take_archive-IsSound u s none new h = record {
    depths = h.depths;
    known = known-add p s.seen s.items h.known;
    unique = h.unique;
    honest = h.honest;
  }
  take_archive-IsSound u s (some kind) new h = conclude-IsSound kind u s _ new h

pass-IsSound :
    (o : Options) (world : World) (p : PathParts) (d : ℕ) (s : Progress)
    → d ≤ o.max_depth
    → IsSound o.max_depth s
    → IsSound o.max_depth (pass o world p d s).1
unfolding pass
pass-IsSound o world p d s fits h = elim (Bool-cases (contains (world.resolve p) s.seen)) [
  | inl e ↦ rw e h
  | inr e ↦ rw e (take_archive-IsSound o world (world.resolve p) d fits _ s _ e h)
]

nothing_yet-IsSound : (limit : ℕ) → IsSound limit nothing_yet
nothing_yet-IsSound limit = record { depths = tt; known = tt; unique = tt; honest = λ e. tt }

false_not_true : false ≡ true → ⊥
false_not_true h = ground arith

passed : (failures : List Failure) → status_of failures ≡ "pass" → failures ≡ []
passed [] h = refl
passed (f ∷ fs) h = absurd (false_not_true ((==_iff "warn" "pass").1 h))

kept_by_empty :
    (root : PathParts) (b : Bool) (failures : List Failure)
    → or_empty_archive root b failures ≡ []
    → failures ≡ []
kept_by_empty root false failures h = h
kept_by_empty root true [] h = refl
kept_by_empty root true (f ∷ fs) h = h

no_members : (es : List Example) → member_failures es ≡ [] → es ≡ []
no_members [] h = refl
no_members (e ∷ es) h = absurd (ground arith)

module _ (o : Options) (world : World) (fuel : ℕ) (m : Manifest)
    (returns : extract_artifacts fuel o world ≡ some m) where
  abbrev Ended : Type 0
  Ended = (t : Progress) × IsSound o.max_depth t × (manifest_of o world t ≡ m)

  ended : Ended
  unfolding extract_artifacts
  ended =
      let (t, e, f) = with_manifest-some o world _ m returns in
      (
        t,
        drain-keeps o world (IsSound o.max_depth) (λ p d s b h. pass-IsSound o world p d s b h) fuel
            _ nothing_yet t (first_queue-Bounded o world _) e (nothing_yet-IsSound o.max_depth),
        f,
      )

  -- The manifest lists no archive twice, and none deeper than the limit on the depth, whatever the
  -- archives hold, also where an archive unpacks to itself or a link leads back to it.
  pub extract_artifacts_unique :
      All (λ (item : Item). item.depth ≤ o.max_depth) m.items × Unrepeated (archives m.items)
  unfolding manifest_of
  extract_artifacts_unique = let (t, h, e) = ended in rw (← e) (h.depths, h.unique)

  -- A run whose status is "pass" recorded no failure and no refused member, and every archive that
  -- it lists was unpacked to the end and hashed.
  pub extract_artifacts-pass :
      m.status ≡ "pass" → (m.failures ≡ []) × All IsDone m.items × (m.stats.unsafe_members ≡ [])
  unfolding manifest_of
  extract_artifacts-pass =
      let (t, h, e) = ended in
      rw (← e) (λ (status : (manifest_of o world t).status ≡ "pass").
        let none_at_all = passed _ status in
        let parts =
          append_empty t.failures (member_failures t.run.stats.unsafe_members)
            (kept_by_empty o.source_root _ _ none_at_all) in
        (none_at_all, h.honest parts.0, no_members t.run.stats.unsafe_members parts.1))
