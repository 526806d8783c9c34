-- ===== src/Extraction/Unbounded.antt =====
-- What the limits on files and bytes change in the extraction of a zip or a tar file. The exception
-- that a breach raises inside the loop is caught by the handler of the member that meets it.
use el_sca_ansamble.Prelude.{
  ℕ, String, ◌≡◌, refl, sym, ap, ◌∙◌, Bool, true, false, Option, none, some, List, [], ◌∷◌, ◌++◌,
  if◌then◌else◌, ◌⊎◌, inl, inr, arith, Bool-cases, ltb,
}
use el_sca_ansamble.Prelude.Keys.{string_eq}
use el_sca_ansamble.Extraction.Limits.{
  ExtractLimits, ExtractionStats, Exception, value_error, os_error, runtime_error, limit_error,
  bad_archive, other, note_written_file, should_skip_member, skip_by, limit_breach,
}
use el_sca_ansamble.Extraction.Names.{PathParts}
use el_sca_ansamble.Extraction.Paths.{parent, ensure_safe_member}
use el_sca_ansamble.Extraction.Members.{
  Member, Run, Step, after, mkdir, create, note_written, copy_member, unless_skipped, zip_target,
  zip_member, tar_target, tar_member, handled, each_member, extract_zip, extract_tar,
}

-- The same limits but for the counts of files and bytes.
abbrev pub relimit : ℕ → ℕ → ExtractLimits → ExtractLimits
relimit files bytes limits = record limits { max_files = files; max_bytes = bytes }

-- Two steps that touch the same paths and raise the same exception.
unfoldable pub Same : Step → Step → Type 0
Same s t = (s.0.touched ≡ t.0.touched) × (s.1 ≡ t.1)

-- What the handlers let through.
abbrev uncaught : Option Exception → Option Exception
uncaught none = none
uncaught (some (value_error t)) = none
uncaught (some (os_error t)) = none
uncaught (some (runtime_error t)) = none
uncaught (some (limit_error t)) = none
uncaught (some (bad_archive t)) = none
uncaught (some (other t)) = some (other t)

abbrev Alike : Step → Step → Type 0
Alike s t = (s.0.touched ≡ t.0.touched) × (uncaught s.1 ≡ uncaught t.1)

handled-uncaught :
    (label : String) (m : Member) (s : Step)
    → ((handled label m s).0.touched ≡ s.0.touched) × ((handled label m s).1 ≡ uncaught s.1)
unfolding handled
handled-uncaught label m (r, none) = (refl, refl)
handled-uncaught label m (r, some (value_error t)) = (refl, refl)
handled-uncaught label m (r, some (os_error t)) = (refl, refl)
handled-uncaught label m (r, some (runtime_error t)) = (refl, refl)
handled-uncaught label m (r, some (limit_error t)) = (refl, refl)
handled-uncaught label m (r, some (bad_archive t)) = (refl, refl)
handled-uncaught label m (r, some (other t)) = (refl, refl)

handled-Same :
    (label : String) (m : Member) (s t : Step)
    → Alike s t
    → Same (handled label m s) (handled label m t)
unfolding Same
handled-Same label m s t h =
    let a = handled-uncaught label m s in
    let b = handled-uncaught label m t in (a.0 ∙ h.0 ∙ sym b.0, a.1 ∙ h.1 ∙ sym b.1)

Same-Alike : (s t : Step) → Same s t → Alike s t
unfolding Same
Same-Alike s t h = (h.0, ap uncaught h.1)

after-Same :
    (s t : Step) (next next' : Run → Step)
    → Same s t
    → ((r r' : Run) → r.touched ≡ r'.touched → Same (next r) (next' r'))
    → Same (after s next) (after t next')
unfolding Same
after-Same (r, none) (r', none) next next' h k = k r r' h.0
after-Same (r, none) (r', some e) next next' h k = absurd (ground arith)
after-Same (r, some e) (r', none) next next' h k = absurd (ground arith)
after-Same (r, some e) (r', some e') next next' h k = h

after-Alike :
    (s t : Step) (next next' : Run → Step)
    → Same s t
    → ((r r' : Run) → r.touched ≡ r'.touched → Alike (next r) (next' r'))
    → Alike (after s next) (after t next')
unfolding Same
after-Alike (r, none) (r', none) next next' h k = k r r' h.0
after-Alike (r, none) (r', some e) next next' h k = absurd (ground arith)
after-Alike (r, some e) (r', none) next next' h k = absurd (ground arith)
after-Alike (r, some e) (r', some e') next next' h k = Same-Alike (r, some e) (r', some e') h

if-Alike :
    (b : Bool) (s s' t t' : Step)
    → Alike s s'
    → Alike t t'
    → Alike (if b then s else t) (if b then s' else t')
if-Alike true s s' t t' h k = h
if-Alike false s s' t t' h k = k

mkdir-Same :
    (p : PathParts) (e : Option Exception) (r r' : Run)
    → r.touched ≡ r'.touched
    → Same (mkdir p e r) (mkdir p e r')
unfolding Same mkdir
mkdir-Same p e r r' h = (ap (λ z. z ++ p ∷ []) h, refl)

create-Same :
    (p : PathParts) (e : Option Exception) (r r' : Run)
    → r.touched ≡ r'.touched
    → Same (create p e r) (create p e r')
unfolding Same create
create-Same p none r r' h = (ap (λ z. z ++ p ∷ []) h, refl)
create-Same p (some e) r r' h = (h, refl)

limit_breach-caught :
    (limits : ExtractLimits) (stats : ExtractionStats) → uncaught (limit_breach limits stats) ≡ none
unfolding limit_breach
limit_breach-caught limits stats = elim (Bool-cases (ltb limits.max_files stats.files_written)) [
  | inl e ↦ rw e refl
  | inr e ↦ elim (Bool-cases (ltb limits.max_bytes stats.bytes_written)) [
    | inl f ↦ rw (e, f) refl
    | inr f ↦ rw (e, f) refl
  ]
]

module _ (files bytes : ℕ) (limits : ExtractLimits) where
  note_written-Alike :
      (size : ℕ) (r r' : Run)
      → r.touched ≡ r'.touched
      → Alike (note_written size limits r) (note_written size (relimit files bytes limits) r')
  unfolding note_written note_written_file
  note_written-Alike size r r' h =
      (h, limit_breach-caught limits _ ∙ sym (limit_breach-caught (relimit files bytes limits) _))

  copy_member-Alike :
      (p : PathParts) (m : Member) (r r' : Run)
      → r.touched ≡ r'.touched
      → Alike (copy_member p limits m r) (copy_member p (relimit files bytes limits) m r')
  unfolding copy_member Same
  copy_member-Alike p m r r' h =
      after-Alike _ _ _ _ (mkdir-Same (parent p) m.effects.made r r' h) (λ r1 r1' h1.
        if-Alike m.has_source _ _ _ _
          (after-Alike (r1, m.effects.opened) (r1', m.effects.opened) _ _ (h1, refl)
            (λ r2 r2' h2.
              after-Alike _ _ _ _ (create-Same p m.effects.created r2 r2' h2) (λ r3 r3' h3.
                after-Alike (r3, m.effects.copied) (r3', m.effects.copied) _ _ (h3, refl)
                  (note_written-Alike m.effects.written))))
          (h1, refl))

  skip_by-fst :
      (o : Option String) (name : String) (size : Option ℕ) (stats stats' : ExtractionStats)
      → (skip_by o name size limits stats).1
        ≡ (skip_by o name size (relimit files bytes limits) stats').1
  unfolding skip_by
  skip_by-fst (some ext) name size stats stats' = refl
  skip_by-fst none name size stats stats' = ground arith

  unless_skipped-Alike :
      (p : PathParts) (m : Member) (r r' : Run) (skip skip' : ExtractionStats × Bool)
      → r.touched ≡ r'.touched
      → skip.1 ≡ skip'.1
      → Alike
          (unless_skipped p limits m r skip)
          (unless_skipped p (relimit files bytes limits) m r' skip')
  unfolding unless_skipped
  unless_skipped-Alike p m r r' (stats, true) (stats', true) h e = (h, refl)
  unless_skipped-Alike p m r r' (stats, false) (stats', false) h e =
      copy_member-Alike p m (record r { stats = stats }) (record r' { stats = stats' }) h
  unless_skipped-Alike p m r r' (stats, true) (stats', false) h e = absurd (ground arith)
  unless_skipped-Alike p m r r' (stats, false) (stats', true) h e = absurd (ground arith)

  skipped-Alike :
      (p : PathParts) (m : Member) (r r' : Run)
      → r.touched ≡ r'.touched
      → Alike
          (unless_skipped p limits m r
            (should_skip_member m.filename (some m.file_size) limits r.stats))
          (unless_skipped p (relimit files bytes limits) m r' (
            should_skip_member m.filename (some m.file_size) (relimit files bytes limits) r'.stats))
  unfolding should_skip_member
  skipped-Alike p m r r' h =
      unless_skipped-Alike p m r r' _ _ h
        (skip_by-fst _ m.filename (some m.file_size) r.stats r'.stats)

  mkdir-Alike :
      (p : PathParts) (e : Option Exception) (r r' : Run)
      → r.touched ≡ r'.touched
      → Alike (mkdir p e r) (mkdir p e r')
  mkdir-Alike p e r r' h = Same-Alike (mkdir p e r) (mkdir p e r') (mkdir-Same p e r r' h)

  zip_target-Alike :
      (m : Member) (r r' : Run) (t : String ⊎ PathParts)
      → r.touched ≡ r'.touched
      → Alike (zip_target limits m r t) (zip_target (relimit files bytes limits) m r' t)
  unfolding zip_target
  zip_target-Alike m r r' (inl message) h = (h, refl)
  zip_target-Alike m r r' (inr p) h =
      if-Alike m.is_dir _ _ _ _ (mkdir-Alike p m.effects.made r r' h) (skipped-Alike p m r r' h)

  tar_target-Alike :
      (m : Member) (r r' : Run) (t : String ⊎ PathParts)
      → r.touched ≡ r'.touched
      → Alike (tar_target limits m r t) (tar_target (relimit files bytes limits) m r' t)
  unfolding tar_target
  tar_target-Alike m r r' (inl message) h = (h, refl)
  tar_target-Alike m r r' (inr p) h =
      if-Alike m.is_dir _ _ _ _ (mkdir-Alike p m.effects.made r r' h)
        (if-Alike m.is_file _ _ _ _ (skipped-Alike p m r r' h) (h, refl))

  tar_member-Alike :
      (dir : PathParts) (m : Member) (r r' : Run)
      → r.touched ≡ r'.touched
      → Alike (tar_member dir limits m r) (tar_member dir (relimit files bytes limits) m r')
  unfolding tar_member
  tar_member-Alike dir m r r' h =
      if-Alike _ _ _ _ _ (mkdir-Alike dir m.effects.made r r' h)
        (tar_target-Alike m r r' (ensure_safe_member dir m.filename) h)

each_member-Same :
    (label : String) (body body' : Member → Run → Step)
    → ((m : Member) (r r' : Run) → r.touched ≡ r'.touched → Alike (body m r) (body' m r'))
    → (ms : List Member) (r r' : Run) → r.touched ≡ r'.touched
    → Same (each_member label body ms r) (each_member label body' ms r')
unfolding each_member Same
each_member-Same label body body' k [] r r' h = (h, refl)
each_member-Same label body body' k (m ∷ ms) r r' h =
    after-Same _ _ _ _ (handled-Same label m (body m r) (body' m r') (k m r r' h))
      (each_member-Same label body body' k ms)

-- The limits on the count of files and of bytes stop no extraction of a zip or a tar file: with any
-- other limits the same paths are touched in the same order, and the same exception is raised, or
-- none.
pub extract_zip-unbounded :
    (dir : PathParts) (limits : ExtractLimits) (files bytes : ℕ) (ms : List Member) (r : Run)
    → Same (extract_zip dir limits ms r) (extract_zip dir (relimit files bytes limits) ms r)
      × Same (extract_tar dir limits ms r) (extract_tar dir (relimit files bytes limits) ms r)
unfolding extract_zip extract_tar zip_member
extract_zip-unbounded dir limits files bytes ms r = (
  each_member-Same "zip member: " _ _
      (λ m s s' h.
        zip_target-Alike files bytes limits (record m { has_source = true }) s s'
          (ensure_safe_member dir m.filename) h)
      ms r r refl,
  each_member-Same "tar member: " _ _ (tar_member-Alike files bytes limits dir) ms r r refl,
)
