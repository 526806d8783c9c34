-- ===== src/Extraction/Refused.antt =====
-- The members of a zip file that are refused for their names.
use el_sca_ansamble.Prelude.{
  ℕ, String, ◌≡◌, ◌≢◌, refl, ap, ◌∙◌, Bool, true, false, Option, none, some, List, [], ◌∷◌, any,
  if◌then◌else◌, ◌⊎◌, inl, inr, arith, Bool-cases,
}
use el_sca_ansamble.Extraction.Limits.{
  ExtractLimits, ExtractionStats, Exception, Example, value_error, os_error, runtime_error,
  limit_error, bad_archive, other, keep_example, note_skipped, note_member_error,
  note_unsafe_member, note_written_file, skip_by, should_skip_member,
}
use el_sca_ansamble.Extraction.Names.{PathParts}
use el_sca_ansamble.Extraction.Paths.{parent, is_unsafe, posix_name, ensure_safe_member}
use el_sca_ansamble.Extraction.Members.{
  Member, Run, Step, after, mkdir, create, note_written, copy_member, unless_skipped, zip_target,
  zip_member, handled, each_member, extract_zip,
}

abbrev refused : Run → List Example
refused run = run.stats.unsafe_members

-- A step that leaves the refused members as they were.
unfoldable Quiet : List Example → Step → Type 0
Quiet es s = refused s.0 ≡ es

quiet : (es : List Example) (r : Run) (e : Option Exception) → refused r ≡ es → Quiet es (r, e)
unfolding Quiet
quiet es r e h = h

after-Quiet :
    (es : List Example) (s : Step) (next : Run → Step)
    → Quiet es s
    → ((r : Run) → refused r ≡ es → Quiet es (next r))
    → Quiet es (after s next)
unfolding Quiet
after-Quiet es (r, none) next h keep = keep r h
after-Quiet es (r, some e) next h keep = h

if-Quiet :
    (es : List Example) (b : Bool) (s t : Step)
    → Quiet es s
    → Quiet es t
    → Quiet es (if b then s else t)
if-Quiet es true s t h k = h
if-Quiet es false s t h k = k

mkdir-Quiet :
    (es : List Example) (p : PathParts) (e : Option Exception) (r : Run)
    → refused r ≡ es
    → Quiet es (mkdir p e r)
unfolding Quiet mkdir
mkdir-Quiet es p e r h = h

create-Quiet :
    (es : List Example) (p : PathParts) (e : Option Exception) (r : Run)
    → refused r ≡ es
    → Quiet es (create p e r)
unfolding Quiet create
create-Quiet es p none r h = h
create-Quiet es p (some e) r h = h

note_written-Quiet :
    (es : List Example) (size : ℕ) (limits : ExtractLimits) (r : Run)
    → refused r ≡ es
    → Quiet es (note_written size limits r)
unfolding Quiet note_written note_written_file
note_written-Quiet es size limits r h = h

copy_member-Quiet :
    (es : List Example) (p : PathParts) (limits : ExtractLimits) (m : Member) (r : Run)
    → refused r ≡ es
    → Quiet es (copy_member p limits m r)
unfolding copy_member
copy_member-Quiet es p limits m r h =
    after-Quiet es (mkdir (parent p) m.effects.made r) _
      (mkdir-Quiet es (parent p) m.effects.made r h)
      (λ r1 h1.
        if-Quiet es _ _ _
          (after-Quiet es (r1, m.effects.opened) _ (quiet es r1 m.effects.opened h1)
            (λ r2 h2.
              after-Quiet es (create p m.effects.created r2) _
                (create-Quiet es p m.effects.created r2 h2)
                (λ r3 h3.
                  after-Quiet es (r3, m.effects.copied) _ (quiet es r3 m.effects.copied h3)
                    (note_written-Quiet es m.effects.written limits))))
          (quiet es r1 m.effects.opened h1))

skip_by-unsafe :
    (o : Option String) (name : String) (size : Option ℕ) (limits : ExtractLimits)
    → (stats : ExtractionStats)
    → (skip_by o name size limits stats).0.unsafe_members ≡ stats.unsafe_members
unfolding skip_by note_skipped
skip_by-unsafe (some ext) name size limits stats = refl
skip_by-unsafe none name size limits stats = ground arith

unless_skipped-Quiet :
    (es : List Example) (p : PathParts) (limits : ExtractLimits) (m : Member) (r : Run)
    → (skip : ExtractionStats × Bool) → skip.0.unsafe_members ≡ es
    → Quiet es (unless_skipped p limits m r skip)
unfolding unless_skipped
unless_skipped-Quiet es p limits m r (stats, true) h = quiet es (record r { stats = stats }) none h
unless_skipped-Quiet es p limits m r (stats, false) h =
    copy_member-Quiet es p limits m (record r { stats = stats }) h

zip_target-Quiet :
    (es : List Example) (limits : ExtractLimits) (m : Member) (r : Run) (t : String ⊎ PathParts)
    → refused r ≡ es
    → Quiet es (zip_target limits m r t)
unfolding zip_target should_skip_member
zip_target-Quiet es limits m r (inl message) h = quiet es r _ h
zip_target-Quiet es limits m r (inr p) h =
    if-Quiet es _ _ _ (mkdir-Quiet es p m.effects.made r h)
      (unless_skipped-Quiet es p limits m r _ (skip_by-unsafe _ m.filename _ limits r.stats ∙ h))

abbrev nonempty : List Example → Bool
nonempty [] = false
nonempty (e ∷ es) = true

keep_example-nonempty : (e : Example) (es : List Example) → nonempty (keep_example e es) ≡ true
unfolding keep_example
keep_example-nonempty e [] = refl
keep_example-nonempty e (f ∷ es) = ground arith

-- The handler removes no record of a refused member.
handled-keeps :
    (label : String) (m : Member) (s : Step)
    → nonempty (refused s.0) ≡ true
    → nonempty (refused (handled label m s).0) ≡ true
unfolding handled note_unsafe_member note_member_error
handled-keeps label m (r, none) h = h
handled-keeps label m (r, some (value_error t)) h = keep_example-nonempty _ r.stats.unsafe_members
handled-keeps label m (r, some (os_error t)) h = h
handled-keeps label m (r, some (runtime_error t)) h = h
handled-keeps label m (r, some (limit_error t)) h = h
handled-keeps label m (r, some (bad_archive t)) h = h
handled-keeps label m (r, some (other t)) h = h

zip_member-keeps :
    (dir : PathParts) (limits : ExtractLimits) (m : Member) (r : Run)
    → nonempty (refused r) ≡ true
    → nonempty (refused (zip_member dir limits m r).0) ≡ true
unfolding zip_member Quiet
zip_member-keeps dir limits m r h =
    ap nonempty (zip_target-Quiet (refused r) limits (record m { has_source = true }) r _ refl) ∙ h

zip_member-refuses :
    (dir : PathParts) (limits : ExtractLimits) (label : String) (m : Member) (r : Run)
    → is_unsafe (posix_name m.filename) ≡ true
    → nonempty (refused (handled label m (zip_member dir limits m r)).0) ≡ true
unfolding zip_member zip_target ensure_safe_member handled note_unsafe_member
zip_member-refuses dir limits label m r h = rw h (keep_example-nonempty _ r.stats.unsafe_members)

after-nonempty :
    (s : Step) (next : Run → Step)
    → nonempty (refused s.0) ≡ true
    → ((r : Run) → nonempty (refused r) ≡ true → nonempty (refused (next r).0) ≡ true)
    → nonempty (refused (after s next).0) ≡ true
after-nonempty (r, none) next h keep = keep r h
after-nonempty (r, some e) next h keep = h

each_member-keeps :
    (dir : PathParts) (limits : ExtractLimits) (label : String) (ms : List Member) (r : Run)
    → nonempty (refused r) ≡ true
    → nonempty (refused (each_member label (zip_member dir limits) ms r).0) ≡ true
unfolding each_member
each_member-keeps dir limits label [] r h = h
each_member-keeps dir limits label (m ∷ ms) r h =
    after-nonempty (handled label m (zip_member dir limits m r)) _
      (handled-keeps label m _ (zip_member-keeps dir limits m r h))
      (each_member-keeps dir limits label ms)

abbrev pub has_unsafe : List Member → Bool
has_unsafe ms = any (λ m. is_unsafe (posix_name m.filename)) ms

each_member-refuses :
    (dir : PathParts) (limits : ExtractLimits) (label : String) (ms : List Member) (r : Run)
    → has_unsafe ms ≡ true
    → (each_member label (zip_member dir limits) ms r).1 ≡ none
    → nonempty (refused (each_member label (zip_member dir limits) ms r).0) ≡ true
unfolding each_member any
each_member-refuses dir limits label [] r h e = absurd (ground arith)
each_member-refuses dir limits label (m ∷ ms) r h e =
    elim (Bool-cases (is_unsafe (posix_name m.filename))) [
      | inl u ↦
          after-nonempty (handled label m (zip_member dir limits m r)) _
            (zip_member-refuses dir limits label m r u) (each_member-keeps dir limits label ms)
      | inr u ↦
          next_refuses (handled label m (zip_member dir limits m r)) _ e
            (λ r1. each_member-refuses dir limits label ms r1 (ground arith))
    ]
  where
    next_refuses :
        (s : Step) (next : Run → Step)
        → (after s next).1 ≡ none
        → ((r : Run) → (next r).1 ≡ none → nonempty (refused (next r).0) ≡ true)
        → nonempty (refused (after s next).0) ≡ true
    next_refuses (r, none) next e k = k r e
    next_refuses (r, some x) next e k = absurd (ground arith)

-- When `_extract_zip` goes through a zip file to its end and a member of the file has a name that is
-- absolute or climbs with "..", the statistics hold a record of a refused member.
pub extract_zip-refuses :
    (dir : PathParts) (limits : ExtractLimits) (ms : List Member) (r : Run)
    → has_unsafe ms ≡ true
    → (extract_zip dir limits ms r).1 ≡ none
    → (extract_zip dir limits ms r).0.stats.unsafe_members ≢ []
unfolding extract_zip
extract_zip-refuses dir limits ms r h e nil =
    let k = each_member-refuses dir limits "zip member: " ms r h e in
    absurd (ground (arith, ap nonempty nil))
