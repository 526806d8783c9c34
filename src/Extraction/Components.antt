-- ===== src/Extraction/Components.antt =====
-- Components that are no step of a path's own, and the names that the extraction makes of texts.
use Prim.Native.Char.{Char, code}
use Prim.Native.String.{◌++◌ as str_append}
use text.Mathlib.TextLemmas.{nil-append, cons-append}
use el_sca_ansamble.Prelude.{
  ℕ, String, ◌≡◌, refl, ap, Bool, true, false, not, ◌&&◌, ◌||◌, List, [], ◌∷◌, map, All, inl, inr,
  arith, Bool-cases,
}
use el_sca_ansamble.Prelude.Keys.{◌==◌, ==_iff, nat_eq, string_eq}
use el_sca_ansamble.Prelude.Text.{split, onto_head}
use el_sca_ansamble.Extraction.Names.{
  rstrip, lstrip, cut_at, sanitize_component, safe_name, cleaned, pick_kept, is_kept,
  is_space_or_dot, is_dot_or_line, or_default,
}
use el_sca_ansamble.Extraction.Paths.{parts, no_empty, is_plain, is_slash}

abbrev pub all_in : (ℕ → Bool) → String → Bool
all_in p String.[] = true
all_in p (String.◌∷◌ c s) = p (code c) && all_in p s

abbrev pub no_slash : ℕ → Bool
no_slash c = not (is_slash c)

-- One component, and no step of the path's own: not empty, not a dot, not two dots, without a
-- slash.
unfoldable pub IsPlain : String → Type 0
IsPlain part = (is_plain part ≡ true) × (all_in no_slash part ≡ true)

abbrev is_empty : String → Bool
is_empty String.[] = true
is_empty (String.◌∷◌ c s) = false

-- A text that is empty or has a character outside a class.
abbrev escapes : (ℕ → Bool) → String → Bool
escapes p s = is_empty s || not (all_in p s)

cut_at-escapes :
    (p : ℕ → Bool) (c : Char) (s : String) → escapes p s ≡ true → escapes p (cut_at p c s) ≡ true
cut_at-escapes p c String.[] h = elim (Bool-cases (p (code c))) [
  | inl e ↦ rw e refl
  | inr e ↦ rw (e, e) refl
]
cut_at-escapes p c (String.◌∷◌ d s) h = ground arith

rstrip-escapes : (p : ℕ → Bool) (s : String) → escapes p (rstrip p s) ≡ true
unfolding rstrip
rstrip-escapes p String.[] = refl
rstrip-escapes p (String.◌∷◌ c s) = cut_at-escapes p c (rstrip p s) (rstrip-escapes p s)

lstrip-escapes : (p : ℕ → Bool) (s : String) → escapes p s ≡ true → escapes p (lstrip p s) ≡ true
unfolding lstrip
lstrip-escapes p String.[] h = refl
lstrip-escapes p (String.◌∷◌ c s) h = elim (Bool-cases (p (code c))) [
  | inl e ↦ rw e (lstrip-escapes p s (ground arith))
  | inr e ↦ rw (e, e) refl
]

cut_at-all_in :
    (q p : ℕ → Bool) (c : Char) (s : String)
    → q (code c) ≡ true
    → all_in q s ≡ true
    → all_in q (cut_at p c s) ≡ true
cut_at-all_in q p c String.[] h k = elim (Bool-cases (p (code c))) [
  | inl e ↦ rw e refl
  | inr e ↦ rw (e, h) refl
]
cut_at-all_in q p c (String.◌∷◌ d s) h k = rw (h, k) refl

rstrip-all_in : (q p : ℕ → Bool) (s : String) → all_in q s ≡ true → all_in q (rstrip p s) ≡ true
unfolding rstrip
rstrip-all_in q p String.[] h = refl
rstrip-all_in q p (String.◌∷◌ c s) h =
    cut_at-all_in q p c (rstrip p s) (ground arith) (rstrip-all_in q p s (ground arith))

lstrip-all_in : (q p : ℕ → Bool) (s : String) → all_in q s ≡ true → all_in q (lstrip p s) ≡ true
unfolding lstrip
lstrip-all_in q p String.[] h = refl
lstrip-all_in q p (String.◌∷◌ c s) h = elim (Bool-cases (p (code c))) [
  | inl e ↦ rw e (lstrip-all_in q p s (ground arith))
  | inr e ↦ rw e h
]

differs : (p : ℕ → Bool) (s t : String) → all_in p t ≡ true → all_in p s ≡ false → (s == t) ≡ false
differs p s t h k = elim (Bool-cases (s == t)) [
  | inl e ↦ absurd (ground (arith, ap (all_in p) ((==_iff s t).0 e)))
  | inr e ↦ e
]

-- A text with a character outside a class that holds the dot is no step of the path's own.
pub named-IsPlain :
    (p : ℕ → Bool) (s : String)
    → p b'.' ≡ true
    → all_in p s ≡ false
    → all_in no_slash s ≡ true
    → IsPlain s
unfolding IsPlain
named-IsPlain p s d h k = (
  rw (differs p s "" refl h, differs p s "." (ground arith) h, differs p s ".." (ground arith) h)
      refl,
  k,
)

or_default-IsPlain :
    (p : ℕ → Bool) (s default : String)
    → p b'.' ≡ true
    → IsPlain default
    → escapes p s ≡ true
    → all_in no_slash s ≡ true
    → IsPlain (or_default s default)
or_default-IsPlain p String.[] default d i h k = i
or_default-IsPlain p (String.◌∷◌ c s) default d i h k =
    named-IsPlain p (String.◌∷◌ c s) d (ground arith) k

line-IsPlain : IsPlain "_"
unfolding IsPlain
line-IsPlain = (refl, refl)

artifact-IsPlain : IsPlain "artifact"
unfolding IsPlain
artifact-IsPlain = (refl, refl)

pub sanitize_component-IsPlain :
    (part : String) → all_in no_slash part ≡ true → IsPlain (sanitize_component part)
unfolding sanitize_component
sanitize_component-IsPlain part h =
    or_default-IsPlain is_space_or_dot (rstrip is_space_or_dot part) "_" refl line-IsPlain
      (rstrip-escapes is_space_or_dot part) (rstrip-all_in no_slash is_space_or_dot part h)

pub append-all_in :
    (q : ℕ → Bool) (s t : String) → all_in q (str_append s t) ≡ (all_in q s && all_in q t)
append-all_in q String.[] t = ap (all_in q) (nil-append t)
append-all_in q (String.◌∷◌ c s) t = rw (cons-append c s t) (ground (arith, append-all_in q s t))

pick_kept-all_in : (c : Char) → all_in no_slash (pick_kept c) ≡ true
unfolding pick_kept
pick_kept-all_in c = elim (Bool-cases (is_kept (code c))) [
  | inl e ↦ rw e (ground arith)
  | inr e ↦ rw e refl
]

cleaned-all_in : (s : String) → all_in no_slash (cleaned s) ≡ true
unfolding cleaned
cleaned-all_in String.[] = refl
cleaned-all_in (String.◌∷◌ c s) =
    rw (append-all_in no_slash (pick_kept c) (cleaned s), pick_kept-all_in c, cleaned-all_in s) refl

pub safe_name-IsPlain : (value : String) → IsPlain (safe_name value)
unfolding safe_name
safe_name-IsPlain value =
    let right = rstrip is_dot_or_line (cleaned value) in
    or_default-IsPlain is_dot_or_line (lstrip is_dot_or_line right) "artifact" refl artifact-IsPlain
      (lstrip-escapes is_dot_or_line right (rstrip-escapes is_dot_or_line (cleaned value)))
      (lstrip-all_in no_slash is_dot_or_line right
        (rstrip-all_in no_slash is_dot_or_line (cleaned value) (cleaned-all_in value)))

abbrev pub Free : String → Type 0
Free w = all_in no_slash w ≡ true

onto_head-Free :
    (c : Char) (ws : List String)
    → no_slash (code c) ≡ true
    → All Free ws
    → All Free (onto_head c ws)
onto_head-Free c [] h k = (ground arith, tt)
onto_head-Free c (w ∷ ws) h k = (ground arith, k.1)

split-Free : (s : String) → All Free (split is_slash s)
unfolding split
split-Free String.[] = (refl, tt)
split-Free (String.◌∷◌ c s) = elim (Bool-cases (is_slash (code c))) [
  | inl e ↦ rw e (refl, split-Free s)
  | inr e ↦ rw e (onto_head-Free c (split is_slash s) (rw e refl) (split-Free s))
]

no_empty-Free : (ws : List String) → All Free ws → All Free (no_empty ws)
no_empty-Free [] h = tt
no_empty-Free (w ∷ ws) h = elim (Bool-cases (w == "" || w == ".")) [
  | inl e ↦ rw e (no_empty-Free ws h.1)
  | inr e ↦ rw e (h.0, no_empty-Free ws h.1)
]

pub parts-Free : (name : String) → All Free (parts name)
unfolding parts
parts-Free name = no_empty-Free (split is_slash name) (split-Free name)

pub sanitize_component-All :
    (ps : List String) → All Free ps → All IsPlain (map sanitize_component ps)
sanitize_component-All [] h = tt
sanitize_component-All (p ∷ ps) h =
    (sanitize_component-IsPlain p h.0, sanitize_component-All ps h.1)
