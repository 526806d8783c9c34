-- ===== src/Tests/Extractions.antt =====
-- A zip file with a good member and an archive, one with a member that climbs, and their runs.
use el_sca_ansamble.Prelude.{
  ◌≤◌, String, ◌≡◌, ◌≢◌, refl, true, false, Option, none, some, List, [], ◌∷◌, All, if◌then◌else◌,
  any,
}
use el_sca_ansamble.Prelude.Keys.{◌==◌, list_eq, string_eq, nat_eq, Unrepeated, contains, add}
use el_sca_ansamble.Prelude.Sort.{sort, insert_sorted}
use el_sca_ansamble.Prelude.Text.{
  lower, strip, split, join, decimal, digits_onto, pick, remove_suffix, ends_with, text_length,
}
use el_sca_ansamble.Extraction.Limits.{
  ExtractLimits, new_stats, keep_example, note_skipped, note_member_error, note_unsafe_member,
  limit_breach, note_written_file, recount_tree_usage, skipped_extension, skip_by,
  should_skip_member,
}
use el_sca_ansamble.Extraction.Names.{
  PathParts, rstrip, lstrip, cleaned, pick_kept, safe_name, sanitize_component, suffix_of,
  archive_kind, strip_archive_suffix,
}
use el_sca_ansamble.Extraction.Paths.{
  posix_name, parts, normpath_onto, is_under, is_unsafe, ensure_safe_member,
}
use el_sca_ansamble.Extraction.Components.{IsPlain}
use el_sca_ansamble.Extraction.Members.{
  Effects, Member, Run, extract_tar, tar_member, tar_target, mkdir, create, note_written,
  copy_member, unless_skipped, zip_target, zip_member, handled, each_member, extract_zip,
}
use el_sca_ansamble.Extraction.Archive.{
  Entry, Tree, folder, Unpacking, extract_inner_tar, extract_external, recount, find_archives,
  extract_kind, extract_one,
}
use el_sca_ansamble.Extraction.Containment.{Contained}
use el_sca_ansamble.Extraction.Unbounded.{relimit, Same, extract_zip-unbounded}
use el_sca_ansamble.Extraction.Refused.{has_unsafe, extract_zip-refuses}
use el_sca_ansamble.Extraction.Queue.{
  Options, World, Item, normalised_extensions, limits_of, relative_name, target_for, enqueue,
  searched, conclude, new_item, take_archive, pass, drain,
}
use el_sca_ansamble.Extraction.Manifest.{Manifest, manifest_of, extract_artifacts}
use el_sca_ansamble.Extraction.Termination.{Terminates, extract_artifacts-terminates}
use el_sca_ansamble.Extraction.Output.{extract_artifacts-Contained}
use el_sca_ansamble.Extraction.Verdict.{
  IsDone, archives, extract_artifacts_unique, extract_artifacts-pass,
}

abbrev no_fault : Effects
no_fault = record { made = none; opened = none; created = none; copied = none; written = 5 }

abbrev member : String → Member
member name = record {
  filename = name;
  is_dir = false;
  is_file = true;
  has_source = true;
  file_size = 5;
  effects = no_fault;
}

abbrev nothing : Tree
nothing = folder []

abbrev zip_of : List Member → Tree → Unpacking
zip_of ms tree = record {
  sniffed = none;
  hash_error = none;
  search_error = none;
  made = none;
  opened = none;
  tool = none;
  removed = none;
  members = ms;
  output = no_fault;
  files = 1;
  bytes = 5;
  nested = tree;
}

abbrev inner : PathParts
inner = "out" ∷ "depth0" ∷ "a.zip" ∷ "a_extracted" ∷ "b.zip" ∷ []

abbrev outer : PathParts
outer = "in" ∷ "a.zip" ∷ []

abbrev entry : PathParts → Entry
entry path = record { path = path; is_file = true; sniffed = none }

abbrev climbing : List Member
climbing = member "lib/x.txt" ∷ member "../evil" ∷ []

abbrev world_of : List Member → World
world_of ms = record {
  resolve = λ path. path;
  source = folder (entry outer ∷ []);
  unpacking = λ seen path.
      if path == outer
      then zip_of ms (folder (entry inner ∷ []))
      else zip_of (member "y" ∷ []) nothing;
}

abbrev options : Options
options = record {
  source_root = "in" ∷ [];
  destination_root = "out" ∷ [];
  max_depth = 2;
  max_files = 1;
  max_bytes = 1000;
  max_member_size_bytes = none;
  skip_extensions = [];
}

abbrev safe_world : World
safe_world = world_of (member "lib/x.txt" ∷ member "b.zip" ∷ [])

abbrev no_manifest : Manifest
no_manifest = record {
  items = [];
  failures = [];
  status = "";
  extracted_count = 0;
  input_was_archive = false;
  passthrough_count = 0;
  stats = new_stats;
  touched = [];
}

abbrev get : Option Manifest → Manifest
get none = no_manifest
get (some m) = m

abbrev manifest : Manifest
manifest = get (extract_artifacts 9 options safe_world)

-- Both archives are unpacked.
runs :
    (extract_artifacts 9 options safe_world ≡ some manifest)
    × (manifest.status ≡ "pass")
    × (manifest.extracted_count ≡ 2)
unfolding any contains add sort insert_sorted lower strip split join decimal digits_onto pick
    remove_suffix ends_with text_length keep_example note_skipped note_member_error
    note_unsafe_member limit_breach note_written_file recount_tree_usage skipped_extension skip_by
    should_skip_member rstrip lstrip cleaned pick_kept safe_name sanitize_component suffix_of
    archive_kind strip_archive_suffix posix_name parts normpath_onto is_under is_unsafe
    ensure_safe_member mkdir create note_written copy_member unless_skipped zip_target zip_member
    handled each_member extract_zip find_archives extract_kind extract_one normalised_extensions
    limits_of relative_name target_for enqueue searched conclude new_item take_archive pass drain
    manifest_of extract_artifacts
runs = (refl, refl, refl)

climbing_warns : (get (extract_artifacts 9 options (world_of climbing))).status ≡ "warn"
unfolding any contains add sort insert_sorted lower strip split join decimal digits_onto pick
    remove_suffix ends_with text_length keep_example note_skipped note_member_error
    note_unsafe_member limit_breach note_written_file recount_tree_usage skipped_extension skip_by
    should_skip_member rstrip lstrip cleaned pick_kept safe_name sanitize_component suffix_of
    archive_kind strip_archive_suffix posix_name parts normpath_onto is_under is_unsafe
    ensure_safe_member mkdir create note_written copy_member unless_skipped zip_target zip_member
    handled each_member extract_zip find_archives extract_kind extract_one normalised_extensions
    limits_of relative_name target_for enqueue searched conclude new_item take_archive pass drain
    manifest_of extract_artifacts
climbing_warns = refl

-- The same members in a .tar.zst file: the member that climbs is refused, and the run passes.
abbrev zst_world : World
zst_world = record (world_of climbing) {
  source = folder (entry ("in" ∷ "a.tar.zst" ∷ []) ∷ []);
  unpacking = λ seen path. zip_of climbing nothing;
}

climbing_passes : (get (extract_artifacts 9 options zst_world)).status ≡ "pass"
unfolding any contains add sort insert_sorted lower strip split join decimal digits_onto pick
    remove_suffix ends_with text_length keep_example note_skipped note_member_error
    note_unsafe_member limit_breach note_written_file recount_tree_usage skipped_extension skip_by
    should_skip_member rstrip lstrip cleaned pick_kept safe_name sanitize_component suffix_of
    archive_kind strip_archive_suffix posix_name parts normpath_onto is_under is_unsafe
    ensure_safe_member mkdir create note_written copy_member unless_skipped zip_target zip_member
    tar_member tar_target extract_tar extract_inner_tar extract_external recount handled each_member
    extract_zip find_archives extract_kind extract_one normalised_extensions limits_of relative_name
    target_for enqueue searched conclude new_item take_archive pass drain manifest_of
    extract_artifacts
climbing_passes = refl

out-IsPlain : All IsPlain options.destination_root
unfolding IsPlain
out-IsPlain = ((refl, refl), tt)

abbrev limits : ExtractLimits
limits = record {
  max_depth = 2;
  max_files = 1;
  max_bytes = 1000;
  max_member_size_bytes = none;
  skip_extensions = none;
}

abbrev start : Run
start = record { stats = new_stats; touched = [] }

extract_artifacts-terminates_example : Terminates options safe_world
extract_artifacts-terminates_example = extract_artifacts-terminates options safe_world

extract_artifacts-Contained_example : All (Contained options.destination_root) manifest.touched
extract_artifacts-Contained_example =
    extract_artifacts-Contained options safe_world out-IsPlain 9 manifest runs.0

extract_artifacts_unique_example :
    All (λ (item : Item). item.depth ≤ options.max_depth) manifest.items
    × Unrepeated (archives manifest.items)
extract_artifacts_unique_example = extract_artifacts_unique options safe_world 9 manifest runs.0

extract_artifacts-pass_example :
    (manifest.failures ≡ []) × All IsDone manifest.items × (manifest.stats.unsafe_members ≡ [])
extract_artifacts-pass_example = extract_artifacts-pass options safe_world 9 manifest runs.0 runs.1

climbs : has_unsafe climbing ≡ true
unfolding is_unsafe posix_name parts contains split join any
climbs = refl

ends : (extract_zip options.destination_root limits climbing start).1 ≡ none
unfolding any contains add sort insert_sorted lower strip split join decimal digits_onto pick
    remove_suffix ends_with text_length keep_example note_skipped note_member_error
    note_unsafe_member limit_breach note_written_file recount_tree_usage skipped_extension skip_by
    should_skip_member rstrip lstrip cleaned pick_kept safe_name sanitize_component suffix_of
    archive_kind strip_archive_suffix posix_name parts normpath_onto is_under is_unsafe
    ensure_safe_member mkdir create note_written copy_member unless_skipped zip_target zip_member
    handled each_member extract_zip find_archives extract_kind extract_one normalised_extensions
    limits_of relative_name target_for enqueue searched conclude new_item take_archive pass drain
    manifest_of extract_artifacts
ends = refl

extract_zip-refuses_example :
    (extract_zip options.destination_root limits climbing start).0.stats.unsafe_members ≢ []
extract_zip-refuses_example =
    extract_zip-refuses options.destination_root limits climbing start climbs ends

-- Two files are written where one is allowed.
two_files :
    (extract_zip options.destination_root limits
      (member "x" ∷ member "y" ∷ [])
      start).0.stats.files_written
    ≡ 2
unfolding any contains add sort insert_sorted lower strip split join decimal digits_onto pick
    remove_suffix ends_with text_length keep_example note_skipped note_member_error
    note_unsafe_member limit_breach note_written_file recount_tree_usage skipped_extension skip_by
    should_skip_member rstrip lstrip cleaned pick_kept safe_name sanitize_component suffix_of
    archive_kind strip_archive_suffix posix_name parts normpath_onto is_under is_unsafe
    ensure_safe_member mkdir create note_written copy_member unless_skipped zip_target zip_member
    handled each_member extract_zip find_archives extract_kind extract_one normalised_extensions
    limits_of relative_name target_for enqueue searched conclude new_item take_archive pass drain
    manifest_of extract_artifacts
two_files = refl

extract_zip-unbounded_example :
    Same
      (extract_zip options.destination_root limits climbing start)
      (extract_zip options.destination_root (relimit 0 0 limits) climbing start)
    × Same
        (extract_tar options.destination_root limits climbing start)
        (extract_tar options.destination_root (relimit 0 0 limits) climbing start)
extract_zip-unbounded_example =
    extract_zip-unbounded options.destination_root limits 0 0 climbing start
