-- ===== src/Extraction/Names.antt =====
-- extractor.py, file names and member names. A relative path is the list of its components; a
-- target directory is one too, below the file system's root.
use Prim.Native.Char.{Char, code}
use Prim.Native.String.{◌++◌ as str_append}
use el_sca_ansamble.Prelude.{
  ℕ, zero, suc, ◌-◌, String, Bool, ◌&&◌, ◌||◌, Option, none, some, List, [], ◌∷◌, leb,
  if◌then◌else◌,
}
use el_sca_ansamble.Prelude.Keys.{◌==◌, nat_eq, string_eq}
use el_sca_ansamble.Prelude.Text.{lower, split, join, ends_with, text_length}

abbrev pub PathParts : Type 0
PathParts = List String

-- `s.rstrip(chars)` and `s.lstrip(chars)`, for a class of characters
abbrev pub cut_at : (ℕ → Bool) → Char → String → String
cut_at p c String.[] = if p (code c) then "" else String.◌∷◌ c ""
cut_at p c (String.◌∷◌ d s) = String.◌∷◌ c (String.◌∷◌ d s)

unfoldable pub rstrip : (ℕ → Bool) → String → String
rstrip p String.[] = ""
rstrip p (String.◌∷◌ c s) = cut_at p c (rstrip p s)

unfoldable pub lstrip : (ℕ → Bool) → String → String
lstrip p String.[] = ""
lstrip p (String.◌∷◌ c s) = let rest = lstrip p s in if p (code c) then rest else String.◌∷◌ c s

abbrev pub or_default : String → String → String
or_default String.[] d = d
or_default (String.◌∷◌ c s) d = String.◌∷◌ c s

abbrev pub is_kept : ℕ → Bool
is_kept c =
    leb b'0' c && leb c b'9'
    || leb b'A' c && leb c b'Z'
    || leb b'a' c && leb c b'z'
    || c == b'.'
    || c == b'_'
    || c == b'-'

unfoldable pub pick_kept : Char → String
pick_kept c = if is_kept (code c) then String.◌∷◌ c "" else "_"

-- Each character that is no letter, digit, dot, line or dash becomes a line.
unfoldable pub cleaned : String → String
unfolding pick_kept
cleaned String.[] = ""
cleaned (String.◌∷◌ c s) = str_append (pick_kept c) (cleaned s)

-- `s.strip("._")`
abbrev pub is_dot_or_line : ℕ → Bool
is_dot_or_line c = c == b'.' || c == b'_'

-- Letters and digits are those of ASCII.
unfoldable pub safe_name : String → String
unfolding cleaned
safe_name value =
    or_default (lstrip is_dot_or_line (rstrip is_dot_or_line (cleaned value))) "artifact"

abbrev pub is_space_or_dot : ℕ → Bool
is_space_or_dot c = c == b' ' || c == b'.'

unfoldable pub sanitize_component : String → String
sanitize_component part = or_default (rstrip is_space_or_dot part) "_"

abbrev pub archive_suffixes : List String
archive_suffixes =
    ".tar.gz" ∷ ".tar.zst" ∷ ".tar.xz" ∷ ".tar.bz2" ∷ ".tgz" ∷ ".tbz2" ∷ ".txz" ∷ ".zip" ∷ ".tar"
    ∷ ".rpm" ∷ ".deb" ∷ ".7z" ∷ ".rar" ∷ ".gz" ∷ ".zst" ∷ []

unfoldable pub suffix_of : String → List String → Option String
suffix_of name [] = none
suffix_of name (suffix ∷ suffixes) =
    if ends_with name suffix then some suffix else suffix_of name suffixes

abbrev is_dot : ℕ → Bool
is_dot c = c == b'.'

-- `suffix.lstrip(".").replace(".", "-")`
abbrev kind_of_suffix : String → String
kind_of_suffix suffix = join "-" (split is_dot (lstrip is_dot suffix))

-- `sniffed` is the kind that the file's contents show, `none` where they show none, where the path
-- is no file, and where the look at them raises.
unfoldable pub archive_kind : String → Option String → Option String
archive_kind name sniffed = elim (suffix_of (lower name) archive_suffixes) [
  | some suffix ↦ some (kind_of_suffix suffix)
  | none ↦ sniffed
]

-- `name[:n]`
abbrev take_chars : ℕ → String → String
take_chars zero s = ""
take_chars (suc n) String.[] = ""
take_chars (suc n) (String.◌∷◌ c s) = String.◌∷◌ c (take_chars n s)

-- What stands before and after the last dot.
at_last_dot : String → Option (String × String)
at_last_dot String.[] = none
at_last_dot (String.◌∷◌ c s) = elim (at_last_dot s) [
  | some (before, after) ↦ some (String.◌∷◌ c before, after)
  | none ↦ if is_dot (code c) then some ("", s) else none
]

abbrev stem_from : String → Option (String × String) → String
stem_from name none = name
stem_from name (some (String.[], after)) = name
stem_from name (some (String.◌∷◌ c before, String.[])) = name
stem_from name (some (String.◌∷◌ c before, String.◌∷◌ d after)) = String.◌∷◌ c before

-- `Path(name).stem`
stem : String → String
unfolding at_last_dot
stem name = stem_from name (at_last_dot name)

unfoldable pub strip_archive_suffix : String → String
unfolding stem
strip_archive_suffix name = elim (suffix_of (lower name) archive_suffixes) [
  | some suffix ↦ take_chars (text_length name - text_length suffix) name
  | none ↦ stem name
]
