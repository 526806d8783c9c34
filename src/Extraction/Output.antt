-- ===== src/Extraction/Output.antt =====
-- What a run of extract_artifacts touches in the file system.
use mathlib.Core.List.{append-nil}
use el_sca_ansamble.Prelude.{
  ℕ, String, ◌≡◌, refl, Bool, Option, none, some, [], ◌∷◌, ◌++◌, All, if◌then◌else◌, Bool-cases,
  inl, inr,
}
use el_sca_ansamble.Prelude.Keys.{nat_eq, string_eq, list_eq, contains}
use el_sca_ansamble.Extraction.Limits.{ExtractLimits, new_stats}
use el_sca_ansamble.Extraction.Names.{PathParts, safe_name, strip_archive_suffix}
use el_sca_ansamble.Extraction.Components.{safe_name-IsPlain}
use el_sca_ansamble.Extraction.Paths.{parent}
use el_sca_ansamble.Extraction.Members.{
  Run, Step, after, mkdir, create, note_written, extract_zip, extract_tar,
}
use el_sca_ansamble.Extraction.Containment.{
  Contained, Contained-trans, Held, after-Held, if-Held, mkdir-Held, create-Held, extract_zip-Held,
  extract_tar-Held, parent-append,
}
use el_sca_ansamble.Extraction.Archive.{
  Unpacking, name_of, extract_gzip, extract_inner_tar, extract_external, extract_kind, extract_one,
  default_limits, recount,
}
use el_sca_ansamble.Extraction.Queue.{
  Options, World, Item, Progress, relative_name, new_item, searched, conclude, take_archive, pass,
  nothing_yet, limits_of,
}
use el_sca_ansamble.Extraction.Manifest.{Manifest, manifest_of, extract_artifacts}
use el_sca_ansamble.Extraction.Termination.{with_manifest-some, first_queue-Bounded, drain-keeps}
use el_sca_ansamble.Extraction.Target.{Names, target_for-plain, target_for-Contained}

-- The step keeps what was touched below a directory.
unfoldable Kept : PathParts → Step → Type 0
Kept base s = Held base s.0

after-Kept :
    (base : PathParts) (s : Step) (next : Run → Step)
    → Held base s.0
    → ((r : Run) → Held base r → Kept base (next r))
    → Kept base (after s next)
unfolding Kept
after-Kept base s next h keep = after-Held base s next h keep

if-Kept :
    (base : PathParts) (b : Bool) (s t : Step)
    → Kept base s
    → Kept base t
    → Kept base (if b then s else t)
unfolding Kept
if-Kept base b s t h k = if-Held base b s t h k

note_written-Kept :
    (base : PathParts) (size : ℕ) (limits : ExtractLimits) (r : Run)
    → Held base r
    → Kept base (note_written size limits r)
unfolding Kept note_written
note_written-Kept base size limits r h = h

recount-Kept :
    (base : PathParts) (u : Unpacking) (limits : ExtractLimits) (r : Run)
    → Held base r
    → Kept base (recount u limits r)
unfolding Kept recount
recount-Kept base u limits r h = h

kept : (base : PathParts) (s : Step) → Held base s.0 → Kept base s
unfolding Kept
kept base s h = h

module _ (base dir : PathParts) (plain : Names dir) (c : Contained base dir) where
  file-Contained : (value : String) → Contained base (dir ++ safe_name value ∷ [])
  unfolding Contained
  file-Contained value =
      Contained-trans base dir _ c (safe_name value ∷ [], refl, (safe_name-IsPlain value, tt))

  parent-file : (w : String) → Contained base (parent (dir ++ w ∷ []))
  parent-file w = rw (parent-append dir w []) (rw (append-nil dir) c)

  extract_gzip-Held :
      (path : PathParts) (u : Unpacking) (r : Run)
      → Held base r
      → Held base (extract_gzip path dir u r).0
  unfolding extract_gzip
  extract_gzip-Held path u r h =
      let target = dir ++ safe_name (strip_archive_suffix (name_of path)) ∷ [] in
      after-Held base (mkdir (parent target) u.output.made r) _
        (mkdir-Held base (parent target) u.output.made r (parent-file _) h)
        (λ r1 h1.
          after-Held base (r1, u.output.opened) _ h1
            (λ r2 h2.
              after-Held base (create target u.output.created r2) _
                (create-Held base target u.output.created r2 (file-Contained _) h2) (λ r3 h3. h3)))

  extract_inner_tar-Held :
      (u : Unpacking) (r : Run) → Held base r → Held base (extract_inner_tar dir u r).0
  unfolding extract_inner_tar
  extract_inner_tar-Held u r h =
      after-Held base (r, u.opened) _ h
        (λ r1 h1.
          extract_tar-Held base dir plain c default_limits u.members
            (record r1 { stats = new_stats }) h1)

  extract_external-Kept :
      (kind : String) (u : Unpacking) (r : Run)
      → Held base r
      → Kept base (extract_external dir kind u r)
  unfolding extract_external
  extract_external-Kept kind u r h =
      after-Kept base (mkdir dir u.made r) _ (mkdir-Held base dir u.made r c h) (λ r1 h1.
        if-Kept base _ _ _
          (after-Kept base (r1, u.tool) _ h1
            (λ r2 h2.
              after-Kept base (extract_inner_tar dir u r2) _ (extract_inner_tar-Held u r2 h2)
                (λ r3 h3. kept base (r3, u.removed) h3)))
          (if-Kept base _ _ _ (kept base (r1, u.tool) h1) (kept base (r1, _) h1)))

  extract_external-Held :
      (kind : String) (u : Unpacking) (r : Run)
      → Held base r
      → Held base (extract_external dir kind u r).0
  unfolding Kept
  extract_external-Held kind u r h = extract_external-Kept kind u r h

  extract_kind-Kept :
      (path : PathParts) (kind : String) (limits : ExtractLimits) (u : Unpacking) (r : Run)
      → Held base r
      → Kept base (extract_kind path dir kind limits u r)
  unfolding extract_kind
  extract_kind-Kept path kind limits u r h =
      if-Kept base _ _ _
        (after-Kept base (r, u.opened) _ h
          (λ r1 h1.
            kept base (extract_zip dir limits u.members r1)
              (extract_zip-Held base dir plain c limits u.members r1 h1)))
        (if-Kept base _ _ _
          (after-Kept base (r, u.opened) _ h
            (λ r1 h1.
              kept base (extract_tar dir limits u.members r1)
                (extract_tar-Held base dir plain c limits u.members r1 h1)))
          (if-Kept base _ _ _
            (after-Kept base (extract_gzip path dir u r) _ (extract_gzip-Held path u r h)
              (λ r1 h1. note_written-Kept base u.output.written limits r1 h1))
            (if-Kept base _ _ _
              (after-Kept base (extract_external dir kind u r) _ (extract_external-Held kind u r h)
                (λ r1 h1. recount-Kept base u limits r1 h1))
              (kept base (r, _) h))))

  extract_one-Held :
      (path : PathParts) (kind : String) (limits : ExtractLimits) (u : Unpacking) (r : Run)
      → Held base r
      → Held base (extract_one path dir kind limits u r).0
  unfolding extract_one Kept
  extract_one-Held path kind limits u r h =
      after-Kept base (mkdir dir u.made r) _ (mkdir-Held base dir u.made r c h)
        (extract_kind-Kept path kind limits u)

module _ (o : Options) (world : World) (plain : Names o.destination_root) where
  conclude-Held :
      (item : Item) (u : Unpacking) (s : Progress) (t : Step)
      → Held o.destination_root t.0
      → Held o.destination_root (conclude o world item u s t).1.run
  unfolding conclude
  conclude-Held item u s (run, none) h = h
  conclude-Held item u s (run, some e) h = h

  searched-Held :
      (d : ℕ) (u : Unpacking) (t : Step)
      → Held o.destination_root t.0
      → Held o.destination_root (searched o d u t).0
  unfolding searched
  searched-Held d u (run, none) h = h
  searched-Held d u (run, some e) h = h

  take_archive-Held :
      (p : PathParts) (d : ℕ) (u : Unpacking) (s : Progress) (kind : Option String)
      → Held o.destination_root s.run
      → Held o.destination_root (take_archive o world p d u s kind).1.run
  unfolding take_archive new_item
  take_archive-Held p d u s none h = h
  take_archive-Held p d u s (some kind) h = conclude-Held _ u _ _ (
      searched-Held d u _ (
        extract_one-Held o.destination_root _
          (target_for-plain o.destination_root d (relative_name o world p) p plain)
          (target_for-Contained o.destination_root d (relative_name o world p) p) p kind
          (limits_of o) u s.run h))

  pass-Held :
      (p : PathParts) (d : ℕ) (s : Progress)
      → Held o.destination_root s.run
      → Held o.destination_root (pass o world p d s).1.run
  unfolding pass
  pass-Held p d s h = elim (Bool-cases (contains (world.resolve p) s.seen)) [
    | inl e ↦ rw e h
    | inr e ↦ rw e (take_archive-Held (world.resolve p) d _ _ _ h)
  ]

  -- Every directory that a run makes and every file that it writes itself, with the names that the
  -- archives give, is the output root or lies below it: each component below the root is one name,
  -- which is not empty, a dot or two dots and has no slash. The root is given in normal form; the
  -- files that external tools write are not counted.
  pub extract_artifacts-Contained :
      (fuel : ℕ) (m : Manifest)
      → extract_artifacts fuel o world ≡ some m
      → All (Contained o.destination_root) m.touched
  unfolding extract_artifacts manifest_of
  extract_artifacts-Contained fuel m e =
      let (t, f, g) = with_manifest-some o world _ m e in
      rw (← g) (
        drain-keeps o world (λ s. Held o.destination_root s.run) (λ p d s b h. pass-Held p d s h)
          fuel _ nothing_yet t (first_queue-Bounded o world _) f tt)
