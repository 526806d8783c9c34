-- ===== src/Extraction/Containment.antt =====
-- What the extraction of a zip or a tar file touches in the file system.
use mathlib.Core.List.{append_assoc, append-nil}
use el_sca_ansamble.Prelude.{
  String, ◌≡◌, ◌≢◌, refl, sym, ap, ◌∙◌, Bool, true, false, Option, none, some, List, [], ◌∷◌, ◌++◌,
  All, All-append, if◌then◌else◌, ◌⊎◌, inl, inr, arith,
}
use el_sca_ansamble.Extraction.Limits.{
  ExtractLimits, ExtractionStats, Exception, value_error, os_error, runtime_error, limit_error,
  bad_archive, other,
}
use el_sca_ansamble.Extraction.Names.{PathParts}
use el_sca_ansamble.Extraction.Paths.{parent, ensure_safe_member}
use el_sca_ansamble.Extraction.Confined.{Inside, ensure_safe_member-Inside}
use el_sca_ansamble.Extraction.Components.{IsPlain}
use el_sca_ansamble.Extraction.Members.{
  Member, Run, Step, after, touch, mkdir, create, note_written, copy_member, unless_skipped,
  zip_target, zip_member, tar_target, tar_member, handled, each_member, extract_zip, extract_tar,
}

-- A directory, or a path below it.
unfoldable pub Contained : PathParts → PathParts → Type 0
Contained dir p = (rest : PathParts) × (p ≡ dir ++ rest) × All IsPlain rest

pub Contained-refl : (dir : PathParts) → Contained dir dir
unfolding Contained
Contained-refl dir = ([], sym (append-nil dir), tt)

Inside-Contained : (dir p : PathParts) → Inside dir p → Contained dir p
unfolding Contained Inside
Inside-Contained dir p (rest, e, ne, h) = (rest, e, h)

pub parent-append :
    (dir : PathParts) (q : String) (qs : PathParts)
    → parent (dir ++ q ∷ qs) ≡ dir ++ parent (q ∷ qs)
parent-append [] q qs = refl
parent-append (d ∷ []) q qs = refl
parent-append (d ∷ e ∷ ds) q qs = ap (λ z. d ∷ z) (parent-append (e ∷ ds) q qs)

parent-All : (ps : PathParts) → All IsPlain ps → All IsPlain (parent ps)
parent-All [] h = tt
parent-All (p ∷ []) h = tt
parent-All (p ∷ q ∷ ps) h = (h.0, parent-All (q ∷ ps) h.1)

pub parent-Contained : (dir p : PathParts) → Inside dir p → Contained dir (parent p)
unfolding Contained Inside
parent-Contained dir p ([], e, ne, h) = absurd (ne refl)
parent-Contained dir p (q ∷ qs, e, ne, h) =
    (parent (q ∷ qs), ap parent e ∙ parent-append dir q qs, parent-All (q ∷ qs) h)

module _ (dir : PathParts) where
  abbrev pub Held : Run → Type 0
  Held run = All (Contained dir) run.touched

  pub after-Held :
      (s : Step) (next : Run → Step)
      → Held s.0
      → ((r : Run) → Held r → Held (next r).0)
      → Held (after s next).0
  after-Held (r, none) next h keep = keep r h
  after-Held (r, some e) next h keep = h

  pub if-Held : (b : Bool) (s t : Step) → Held s.0 → Held t.0 → Held (if b then s else t).0
  if-Held true s t h k = h
  if-Held false s t h k = k

  touch-Held : (p : PathParts) (r : Run) → Contained dir p → Held r → Held (touch p r)
  touch-Held p r c h = All-append (Contained dir) r.touched (p ∷ []) h (c, tt)

  pub create-Held :
      (p : PathParts) (e : Option Exception) (r : Run)
      → Contained dir p
      → Held r
      → Held (create p e r).0
  unfolding create
  create-Held p none r c h = touch-Held p r c h
  create-Held p (some e) r c h = h

  pub mkdir-Held :
      (p : PathParts) (e : Option Exception) (r : Run)
      → Contained dir p
      → Held r
      → Held (mkdir p e r).0
  unfolding mkdir
  mkdir-Held p e r c h = touch-Held p r c h

  copy_member-Held :
      (p : PathParts) (limits : ExtractLimits) (m : Member) (r : Run)
      → Inside dir p
      → Held r
      → Held (copy_member p limits m r).0
  unfolding copy_member note_written
  copy_member-Held p limits m r i h =
      after-Held (mkdir (parent p) m.effects.made r) _
        (mkdir-Held (parent p) m.effects.made r (parent-Contained dir p i) h)
        (λ r1 h1.
          if-Held m.has_source _ _
            (after-Held (r1, m.effects.opened) _ h1
              (λ r2 h2.
                after-Held (create p m.effects.created r2) _
                  (create-Held p m.effects.created r2 (Inside-Contained dir p i) h2)
                  (λ r3 h3. after-Held (r3, m.effects.copied) _ h3 (λ r4 h4. h4))))
            h1)

  unless_skipped-Held :
      (p : PathParts) (limits : ExtractLimits) (m : Member) (r : Run)
      (skip : ExtractionStats × Bool)
      → Inside dir p
      → Held r
      → Held (unless_skipped p limits m r skip).0
  unfolding unless_skipped
  unless_skipped-Held p limits m r (stats, true) i h = h
  unless_skipped-Held p limits m r (stats, false) i h =
      copy_member-Held p limits m (record r { stats = stats }) i h

  zip_target-Held :
      (limits : ExtractLimits) (m : Member) (r : Run) (t : String ⊎ PathParts)
      → ((p : PathParts) → t ≡ inr p → Inside dir p)
      → Held r
      → Held (zip_target limits m r t).0
  unfolding zip_target
  zip_target-Held limits m r (inl message) i h = h
  zip_target-Held limits m r (inr p) i h =
      if-Held m.is_dir _ _ (mkdir-Held p m.effects.made r (Inside-Contained dir p (i p refl)) h)
        (unless_skipped-Held p limits m r _ (i p refl) h)

  tar_target-Held :
      (limits : ExtractLimits) (m : Member) (r : Run) (t : String ⊎ PathParts)
      → ((p : PathParts) → t ≡ inr p → Inside dir p)
      → Held r
      → Held (tar_target limits m r t).0
  unfolding tar_target
  tar_target-Held limits m r (inl message) i h = h
  tar_target-Held limits m r (inr p) i h =
      if-Held m.is_dir _ _ (mkdir-Held p m.effects.made r (Inside-Contained dir p (i p refl)) h)
        (if-Held m.is_file _ _ (unless_skipped-Held p limits m r _ (i p refl) h) h)

  handled-touched :
      (label : String) (m : Member) (s : Step) → (handled label m s).0.touched ≡ s.0.touched
  unfolding handled
  handled-touched label m (r, none) = refl
  handled-touched label m (r, some (value_error t)) = refl
  handled-touched label m (r, some (os_error t)) = refl
  handled-touched label m (r, some (runtime_error t)) = refl
  handled-touched label m (r, some (limit_error t)) = refl
  handled-touched label m (r, some (bad_archive t)) = refl
  handled-touched label m (r, some (other t)) = refl

  each_member-Held :
      (label : String) (body : Member → Run → Step)
      → ((m : Member) (r : Run) → Held r → Held (body m r).0)
      → (ms : List Member) (r : Run) → Held r
      → Held (each_member label body ms r).0
  unfolding each_member
  each_member-Held label body keep [] r h = h
  each_member-Held label body keep (m ∷ ms) r h =
      after-Held (handled label m (body m r)) _
        (rw (handled-touched label m (body m r)) (keep m r h)) (each_member-Held label body keep ms)

pub Contained-trans :
    (base dir p : PathParts) → Contained base dir → Contained dir p → Contained base p
unfolding Contained
Contained-trans base dir p (mid, e, h) (rest, f, k) = (
  mid ++ rest,
  f ∙ ap (λ z. z ++ rest) e ∙ append_assoc base mid rest,
  All-append IsPlain mid rest h k,
)

Inside-trans : (base dir p : PathParts) → Contained base dir → Inside dir p → Inside base p
unfolding Contained Inside
Inside-trans base dir p (mid, e, h) (rest, f, ne, k) = (
  mid ++ rest,
  f ∙ ap (λ z. z ++ rest) e ∙ append_assoc base mid rest,
  append_nonempty mid rest ne,
  All-append IsPlain mid rest h k,
)
  where
    append_nonempty : (xs ys : PathParts) → ys ≢ [] → xs ++ ys ≢ []
    append_nonempty [] ys ne = ne
    append_nonempty (x ∷ xs) ys ne = λ e. ground arith

module _ (base dir : PathParts) (plain : All IsPlain dir) (c : Contained base dir) where
  safe-Inside :
      (name : String) (p : PathParts) → ensure_safe_member dir name ≡ inr p → Inside base p
  safe-Inside name p e = Inside-trans base dir p c (ensure_safe_member-Inside dir name p plain e).1

  pub extract_zip-Held :
      (limits : ExtractLimits) (ms : List Member) (r : Run)
      → Held base r
      → Held base (extract_zip dir limits ms r).0
  unfolding extract_zip zip_member
  extract_zip-Held limits ms r h =
      each_member-Held base "zip member: " (zip_member dir limits)
        (λ m s k.
          zip_target-Held base limits (record m { has_source = true }) s _ (safe-Inside m.filename)
            k)
        ms r h

  pub extract_tar-Held :
      (limits : ExtractLimits) (ms : List Member) (r : Run)
      → Held base r
      → Held base (extract_tar dir limits ms r).0
  unfolding extract_tar tar_member
  extract_tar-Held limits ms r h =
      each_member-Held base "tar member: " (tar_member dir limits)
        (λ m s k.
          if-Held base _ _ _ (mkdir-Held base dir m.effects.made s c k)
            (tar_target-Held base limits m s _ (safe-Inside m.filename) k))
        ms r h
