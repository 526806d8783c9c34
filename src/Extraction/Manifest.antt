-- ===== src/Extraction/Manifest.antt =====
-- extractor.py, extract_artifacts: the manifest of a run, less the times and the paths in it.
use el_sca_ansamble.Prelude.{
  ℕ, suc, String, Bool, true, false, not, ◌&&◌, Option, none, some, List, [], ◌∷◌, ◌++◌,
  if◌then◌else◌,
}
use el_sca_ansamble.Prelude.Keys.{◌==◌, nat_eq, string_eq, list_eq}
use el_sca_ansamble.Extraction.Limits.{ExtractionStats, Example}
use el_sca_ansamble.Extraction.Names.{PathParts}
use el_sca_ansamble.Extraction.Archive.{Tree, single_file, folder, find_archives, is_archive}
use el_sca_ansamble.Extraction.Queue.{
  Options, World, Failure, archive_failure, member_failure, extracted, failed, Item, Progress,
  shown_path, is_file, drain, first_queue, nothing_yet,
}

pub record Manifest : Type 0 where
  pub items : List Item
  pub failures : List Failure
  pub status : String
  pub extracted_count : ℕ
  pub input_was_archive : Bool
  pub passthrough_count : ℕ
  pub stats : ExtractionStats
  pub touched : List PathParts

abbrev pub extracted_count : List Item → ℕ
extracted_count [] = 0
extracted_count (item ∷ items) = elim item.status [
  | extracted ↦ suc (extracted_count items)
  | failed e ↦ extracted_count items
]

abbrev pub member_failures : List Example → List Failure
member_failures [] = []
member_failures (e ∷ es) = member_failure e.member e.reason ∷ member_failures es

abbrev pub was_archive : PathParts → Tree → Bool
was_archive root (single_file sniffed) = is_archive root sniffed
was_archive root (folder items) = false

-- A recognised archive that gave nothing is a failure, unless one is recorded already.
abbrev pub or_empty_archive : PathParts → Bool → List Failure → List Failure
or_empty_archive root false failures = failures
or_empty_archive root true (f ∷ fs) = f ∷ fs
or_empty_archive root true [] =
    archive_failure (shown_path root) "input is a recognised archive but no entries were extracted"
    ∷ []

abbrev pub status_of : List Failure → String
status_of [] = "pass"
status_of (f ∷ fs) = "warn"

unfoldable pub manifest_of : Options → World → Progress → Manifest
manifest_of o world s =
    let count = extracted_count s.items in
    let is_archive_file = was_archive o.source_root world.source in
    let has_nothing = is_file world.source && count == 0 in
    let failures =
      or_empty_archive o.source_root (has_nothing && is_archive_file)
        (s.failures ++ member_failures s.run.stats.unsafe_members) in
    record {
      items = s.items;
      failures = failures;
      status = status_of failures;
      extracted_count = count;
      input_was_archive = is_archive_file;
      passthrough_count = if has_nothing && not is_archive_file then 1 else 0;
      stats = s.run.stats;
      touched = s.run.touched;
    }

abbrev pub with_manifest : Options → World → Option Progress → Option Manifest
with_manifest o world none = none
with_manifest o world (some s) = some (manifest_of o world s)

-- `none` where the fuel gives out.
unfoldable pub extract_artifacts : ℕ → Options → World → Option Manifest
extract_artifacts fuel o world =
    with_manifest o world
      (drain o world fuel (first_queue (find_archives true o.source_root world.source)) nothing_yet)
