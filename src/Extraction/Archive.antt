-- ===== src/Extraction/Archive.antt =====
-- extractor.py, _find_archives and _extract_one: the archives of a tree, and the unpacking of one.
-- An `Unpacking` is what the file system, the archive libraries and the external tools do for it.
use Prim.Native.String.{compare}
use text.Mathlib.Text.{starts_with, is_lt}
use el_sca_ansamble.Prelude.{
  ℕ, String, Bool, true, false, not, ◌&&◌, ◌||◌, Option, none, some, List, [], ◌∷◌, ◌++◌, any,
  if◌then◌else◌,
}
use el_sca_ansamble.Prelude.Keys.{◌==◌, string_eq, contains}
use el_sca_ansamble.Prelude.Sort.{sort}
use el_sca_ansamble.Prelude.Text.{lower, ends_with, join}
use el_sca_ansamble.Extraction.Limits.{
  ExtractLimits, Exception, runtime_error, new_stats, recount_tree_usage,
}
use el_sca_ansamble.Extraction.Names.{PathParts, archive_kind, safe_name, strip_archive_suffix}
use el_sca_ansamble.Extraction.Paths.{parent}
use el_sca_ansamble.Extraction.Members.{
  Effects, Member, Run, Step, after, mkdir, create, note_written, extract_zip, extract_tar,
}

-- `path.name`
abbrev pub name_of : PathParts → String
name_of [] = ""
name_of (p ∷ []) = p
name_of (p ∷ q ∷ ps) = name_of (q ∷ ps)

-- An entry of a directory tree, with the kind that the contents of a file show.
pub record Entry : Type 0 where
  pub path : PathParts
  pub is_file : Bool
  pub sniffed : Option String

pub data Tree : Type 0 where
  single_file : Option String → Tree
  folder : List Entry → Tree

abbrev is_some {ℓ} : {A : Type ℓ} → Option A → Bool
is_some none = false
is_some (some a) = true

abbrev pub is_archive : PathParts → Option String → Bool
is_archive path sniffed = is_some (archive_kind (name_of path) sniffed)

abbrev ignored_parts : Bool → List String
ignored_parts ignore =
    if ignore
    then "container_run" ∷ "__pycache__" ∷ "artifacts" ∷ []
    else "container_run" ∷ "__pycache__" ∷ []

is_candidate : Bool → Entry → Bool
is_candidate ignore item =
    item.is_file
    && not (
        any (λ part. starts_with part "container_run_" || contains part (ignored_parts ignore))
          item.path)
    && not (ends_with (lower (name_of item.path)) ".sha256.txt")
    && is_archive item.path item.sniffed

abbrev candidates : Bool → List Entry → List PathParts
candidates ignore [] = []
candidates ignore (item ∷ items) =
    if is_candidate ignore item
    then item.path ∷ candidates ignore items
    else candidates ignore items

-- The order of paths: that of their components, the first difference deciding.
abbrev pub path_less : PathParts → PathParts → Bool
path_less [] [] = false
path_less [] (q ∷ qs) = true
path_less (p ∷ ps) [] = false
path_less (p ∷ ps) (q ∷ qs) = if p == q then path_less ps qs else is_lt (compare p q)

unfoldable pub find_archives : Bool → PathParts → Tree → List PathParts
unfolding is_candidate
find_archives ignore root (single_file sniffed) = if is_archive root sniffed then root ∷ [] else []
find_archives ignore root (folder items) = sort path_less (candidates ignore items)

pub record Unpacking : Type 0 where
  pub sniffed : Option String
  pub hash_error : Option String
  -- The exception of the search for nested archives, and of resolving their paths.
  pub search_error : Option Exception
  -- The `mkdir` of the target directory, the opening of a zip or tar file, the external tool, and
  -- the removal of a temporary file, each with the exception it raises.
  pub made : Option Exception
  pub opened : Option Exception
  pub tool : Option Exception
  pub removed : Option Exception
  pub members : List Member
  -- The single file of a gzip file.
  pub output : Effects
  -- What stands under the output root, and under the target directory, at the end.
  pub files : ℕ
  pub bytes : ℕ
  pub nested : Tree

-- _extract_gzip
unfoldable pub extract_gzip : PathParts → PathParts → Unpacking → Run → Step
extract_gzip path target_dir u run =
    let target = target_dir ++ safe_name (strip_archive_suffix (name_of path)) ∷ [] in
    after (mkdir (parent target) u.output.made run) (λ r1.
      after (r1, u.output.opened)
        (λ r2. after (create target u.output.created r2) (λ r3. (r3, u.output.copied))))

abbrev pub with_stats_of : Run → Step → Step
with_stats_of run (r, e) = (record r { stats = run.stats }, e)

abbrev pub default_limits : ExtractLimits
default_limits = record {
  max_depth = 4;
  max_files = 20000;
  max_bytes = 10737418240;
  max_member_size_bytes = none;
  skip_extensions = none;
}

-- The tar file inside a .tar.zst file is unpacked with limits and statistics of its own, which are
-- dropped.
unfoldable pub extract_inner_tar : PathParts → Unpacking → Run → Step
extract_inner_tar target_dir u run = with_stats_of run (
    after (run, u.opened)
      (λ r. extract_tar target_dir default_limits u.members (record r { stats = new_stats })))

-- _extract_external; the files that the tools write are not logged.
unfoldable pub extract_external : PathParts → String → Unpacking → Run → Step
extract_external target_dir kind u run = after (mkdir target_dir u.made run) (λ r1.
    if kind == "tar-zst"
    then after (r1, u.tool)
        (λ r2. after (extract_inner_tar target_dir u r2) (λ r3. (r3, u.removed)))
    else if contains kind ("7z" ∷ "rar" ∷ "zst" ∷ "rpm" ∷ "deb" ∷ [])
    then (r1, u.tool)
    else (r1, some (runtime_error (join "" ("unsupported external archive kind: " ∷ kind ∷ [])))))

unfoldable pub recount : Unpacking → ExtractLimits → Run → Step
recount u limits run =
    let (stats, e) = recount_tree_usage u.files u.bytes limits run.stats in
    (record run { stats = stats }, e)

abbrev tar_kinds : List String
tar_kinds = "tar" ∷ "tar-gz" ∷ "tgz" ∷ "tar-xz" ∷ "tar-bz2" ∷ "tbz2" ∷ "txz" ∷ []

abbrev external_kinds : List String
external_kinds = "7z" ∷ "rar" ∷ "zst" ∷ "tar-zst" ∷ "rpm" ∷ "deb" ∷ []

-- The calls after the `mkdir` of the target directory.
unfoldable pub extract_kind :
    PathParts → PathParts → String → ExtractLimits → Unpacking → Run → Step
unfolding recount
extract_kind path target_dir kind limits u run =
    if kind == "zip"
    then after (run, u.opened) (extract_zip target_dir limits u.members)
    else if contains kind tar_kinds
    then after (run, u.opened) (extract_tar target_dir limits u.members)
    else if kind == "gz"
    then after (extract_gzip path target_dir u run) (note_written u.output.written limits)
    else if contains kind external_kinds
    then after (extract_external target_dir kind u run) (recount u limits)
    else (run, some (runtime_error (join "" ("unsupported archive kind: " ∷ kind ∷ []))))

unfoldable pub extract_one : PathParts → PathParts → String → ExtractLimits → Unpacking → Run → Step
extract_one path target_dir kind limits u run =
    after (mkdir target_dir u.made run) (extract_kind path target_dir kind limits u)
