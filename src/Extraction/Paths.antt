-- ===== src/Extraction/Paths.antt =====
-- extractor.py, _ensure_safe_member: where a member of an archive is written.
use text.Mathlib.Text.{starts_with}
use el_sca_ansamble.Prelude.{
  ℕ, String, Bool, true, false, not, ◌&&◌, ◌||◌, List, [], ◌∷◌, ◌++◌, map, if◌then◌else◌, ◌⊎◌, inl,
  inr,
}
use el_sca_ansamble.Prelude.Keys.{◌==◌, nat_eq, string_eq, contains}
use el_sca_ansamble.Prelude.Text.{split, join}
use el_sca_ansamble.Extraction.Names.{PathParts, sanitize_component}

abbrev is_backslash : ℕ → Bool
is_backslash c = c == b'\\'

abbrev pub is_slash : ℕ → Bool
is_slash c = c == b'/'

-- `name.replace("\\", "/")`
unfoldable pub posix_name : String → String
posix_name name = join "/" (split is_backslash name)

abbrev pub no_empty : List String → List String
no_empty [] = []
no_empty (w ∷ ws) = if w == "" || w == "." then no_empty ws else w ∷ no_empty ws

-- `PurePosixPath(name).parts`, for a relative name
unfoldable pub parts : String → List String
parts name = no_empty (split is_slash name)

abbrev pub is_plain : String → Bool
is_plain part = not (part == "" || part == "." || part == "..")

-- `p.parent`
abbrev pub parent : PathParts → PathParts
parent [] = []
parent (p ∷ []) = []
parent (p ∷ q ∷ ps) = p ∷ parent (q ∷ ps)

-- `os.path.normpath` of an absolute path, onto the components that are done.
unfoldable pub normpath_onto : PathParts → List String → PathParts
normpath_onto done [] = done
normpath_onto done (p ∷ ps) =
    if p == "" || p == "."
    then normpath_onto done ps
    else if p == ".."
    then normpath_onto (parent done) ps
    else normpath_onto (done ++ p ∷ []) ps

abbrev pub normpath : List String → PathParts
normpath ps = normpath_onto [] ps

-- `root == target or root in target.parents`
unfoldable pub is_under : PathParts → PathParts → Bool
is_under [] target = true
is_under (p ∷ ps) [] = false
is_under (p ∷ ps) (q ∷ qs) = p == q && is_under ps qs

abbrev pub within : String → PathParts → PathParts → String ⊎ PathParts
within member_name root target =
    if is_under root target
    then inr target
    else inl (join "" ("archive member escapes target dir: " ∷ member_name ∷ []))

abbrev pub placed : PathParts → String → List String → String ⊎ PathParts
placed target_dir member_name [] =
    inl (join "" ("archive member has empty name: '" ∷ member_name ∷ "'" ∷ []))
placed target_dir member_name (p ∷ ps) =
    within member_name (normpath target_dir)
      (normpath (target_dir ++ map sanitize_component (p ∷ ps)))

unfoldable pub is_unsafe : String → Bool
is_unsafe name = starts_with name "/" || contains ".." (parts name)

-- `inl` is the ValueError that is raised. The root that the callers pass is the normalised target.
unfoldable pub ensure_safe_member : PathParts → String → String ⊎ PathParts
ensure_safe_member target_dir member_name =
    let name = posix_name member_name in
    if is_unsafe name
    then inl (join "" ("unsafe archive member path: " ∷ member_name ∷ []))
    else placed target_dir member_name (parts name)
