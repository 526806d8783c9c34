-- ===== src/Extraction/Queue.antt =====
-- extractor.py, extract_artifacts: the queue of archives. Times and the digests themselves are
-- left out.
use Prim.Native.String.{compare}
use text.Mathlib.Text.{starts_with, is_lt}
use el_sca_ansamble.Prelude.{
  ℕ, zero, suc, String, Bool, true, false, Option, none, some, List, [], ◌∷◌, ◌++◌, map, ltb,
  if◌then◌else◌,
}
use el_sca_ansamble.Prelude.Keys.{◌==◌, nat_eq, string_eq, list_eq, contains, add}
use el_sca_ansamble.Prelude.Sort.{sort}
use el_sca_ansamble.Prelude.Text.{lower, strip, join, decimal}
use el_sca_ansamble.Extraction.Limits.{ExtractLimits, text_of, new_stats}
use el_sca_ansamble.Extraction.Names.{PathParts, archive_kind, safe_name, strip_archive_suffix}
use el_sca_ansamble.Extraction.Members.{Run, Step}
use el_sca_ansamble.Extraction.Archive.{
  Tree, single_file, folder, Unpacking, find_archives, name_of, extract_one,
}

-- The options of a run.
pub record Options : Type 0 where
  pub source_root : PathParts
  pub destination_root : PathParts
  pub max_depth : ℕ
  pub max_files : ℕ
  pub max_bytes : ℕ
  pub max_member_size_bytes : Option ℕ
  pub skip_extensions : List String

-- What the run meets: the resolution of symbolic links, the tree it is given, and for each archive
-- that it takes what unpacking it does, which may depend on all the archives taken before.
pub record World : Type 0 where
  pub resolve : PathParts → PathParts
  pub source : Tree
  pub unpacking : List PathParts → PathParts → Unpacking

abbrev with_dot : String → String
with_dot s = if starts_with s "." then s else join "" ("." ∷ s ∷ [])

abbrev extension_set : List String → List String
extension_set [] = []
extension_set (raw ∷ raws) =
    let rest = extension_set raws in
    if raw == "" then rest else add (with_dot (lower (strip raw))) rest

abbrev some_list : List String → Option (List String)
some_list [] = none
some_list (w ∷ ws) = some (w ∷ ws)

-- Lower case, with a leading dot, sorted and without repetitions.
unfoldable pub normalised_extensions : List String → Option (List String)
normalised_extensions raws = some_list (sort (λ s t. is_lt (compare s t)) (extension_set raws))

unfoldable pub limits_of : Options → ExtractLimits
limits_of o = record {
  max_depth = o.max_depth;
  max_files = o.max_files;
  max_bytes = o.max_bytes;
  max_member_size_bytes = o.max_member_size_bytes;
  skip_extensions = normalised_extensions o.skip_extensions;
}

pub data Failure : Type 0 where
  archive_failure member_failure : String → String → Failure

pub data ItemStatus : Type 0 where
  extracted : ItemStatus
  failed : String → ItemStatus

pub record Item : Type 0 where
  pub archive : PathParts
  pub relative_path : String
  pub kind : String
  pub depth : ℕ
  pub is_hashed : Bool
  pub output_dir : PathParts
  pub status : ItemStatus

pub record Progress : Type 0 where
  pub seen : List PathParts
  pub run : Run
  pub items : List Item
  pub failures : List Failure

-- `path.relative_to(root)`, where the path stands under the root
abbrev below : PathParts → PathParts → Option PathParts
below [] path = some path
below (p ∷ ps) [] = none
below (p ∷ ps) (q ∷ qs) = if p == q then below ps qs else none

abbrev shown_relative : PathParts → String
shown_relative [] = "."
shown_relative (p ∷ ps) = join "/" (p ∷ ps)

abbrev pub shown_path : PathParts → String
shown_path path = join "" ("/" ∷ join "/" path ∷ [])

abbrev or_relative : Option PathParts → String → String
or_relative none other = other
or_relative (some rel) other = shown_relative rel

abbrev pub is_file : Tree → Bool
is_file (single_file sniffed) = true
is_file (folder items) = false

unfoldable pub relative_name : Options → World → PathParts → String
relative_name o world path =
    if is_file world.source
    then name_of path
    else or_relative (below o.source_root path)
        (or_relative (below o.destination_root path) (name_of path))

unfoldable pub target_for : PathParts → ℕ → String → PathParts → PathParts
target_for destination depth rel path =
    destination
    ++ join "" ("depth" ∷ decimal depth ∷ [])
      ∷ safe_name rel
      ∷ join "" (safe_name (strip_archive_suffix (name_of path)) ∷ "_extracted" ∷ [])
      ∷ []

abbrev pub hash_failures : PathParts → Option String → List Failure
hash_failures path none = []
hash_failures path (some e) =
    archive_failure (shown_path path) (join "" ("hash failed: " ∷ e ∷ [])) ∷ []

abbrev pub is_none : Option String → Bool
is_none none = true
is_none (some e) = false

-- The nested archives that were not taken yet.
abbrev pub fresh : (PathParts → PathParts) → List PathParts → List PathParts → List PathParts
fresh resolve seen [] = []
fresh resolve seen (p ∷ ps) =
    if contains (resolve p) seen then fresh resolve seen ps else p ∷ fresh resolve seen ps

unfoldable pub enqueue :
    Options → World → ℕ → PathParts → Unpacking → List PathParts → List (PathParts × ℕ)
enqueue o world depth target u seen =
    if ltb depth o.max_depth
    then map (λ p. (p, suc depth)) (fresh world.resolve seen (find_archives false target u.nested))
    else []

-- The search for nested archives, which stands in the same `try` as the unpacking.
unfoldable pub searched : Options → ℕ → Unpacking → Step → Step
searched o depth u (run, none) = (run, if ltb depth o.max_depth then u.search_error else none)
searched o depth u (run, some e) = (run, some e)

-- The end of a pass, on how the unpacking and the search ended.
unfoldable pub conclude :
    Options → World → Item → Unpacking → Progress → Step → List (PathParts × ℕ) × Progress
conclude o world item u s (run, none) = (
  enqueue o world item.depth item.output_dir u s.seen,
  record s { run = run; items = s.items ++ item ∷ [] },
)
conclude o world item u s (run, some e) = (
  [],
  record s {
    run = run;
    items = s.items ++ record item { status = failed (text_of e) } ∷ [];
    failures = s.failures ++ archive_failure (shown_path item.archive) (text_of e) ∷ [];
  },
)

unfoldable pub new_item : Options → World → PathParts → ℕ → String → Unpacking → Item
new_item o world path depth kind u =
    let rel = relative_name o world path in
    record {
      archive = path;
      relative_path = rel;
      kind = kind;
      depth = depth;
      is_hashed = is_none u.hash_error;
      output_dir = target_for o.destination_root depth rel path;
      status = extracted;
    }

-- A pass, once the archive is known to be new, on its kind.
unfoldable pub take_archive :
    Options
    → World
    → PathParts
    → ℕ
    → Unpacking
    → Progress
    → Option String
    → List (PathParts × ℕ) × Progress
take_archive o world path depth u s none = ([], s)
take_archive o world path depth u s (some kind) =
    let item = new_item o world path depth kind u in
    conclude o world item u (record s { failures = s.failures ++ hash_failures path u.hash_error })
      (searched o depth u (extract_one path item.output_dir kind (limits_of o) u s.run))

-- A pass of the loop; the first part of its result goes to the end of the queue.
unfoldable pub pass : Options → World → PathParts → ℕ → Progress → List (PathParts × ℕ) × Progress
pass o world queued depth s =
    let path = world.resolve queued in
    if contains path s.seen
    then ([], s)
    else let seen = add path s.seen in
      let u = world.unpacking seen path in
      take_archive o world path depth u (record s { seen = seen })
        (archive_kind (name_of path) u.sniffed)

-- `while queue`, with fuel for as many passes.
unfoldable pub drain : Options → World → ℕ → List (PathParts × ℕ) → Progress → Option Progress
drain o world fuel [] s = some s
drain o world zero (q ∷ qs) s = none
drain o world (suc fuel) (q ∷ qs) s =
    let (more, s') = pass o world q.0 q.1 s in drain o world fuel (qs ++ more) s'

abbrev pub first_queue : List PathParts → List (PathParts × ℕ)
first_queue ps = map (λ p. (p, 0)) ps

abbrev pub nothing_yet : Progress
nothing_yet = record {
  seen = [];
  run = record { stats = new_stats; touched = [] };
  items = [];
  failures = [];
}
