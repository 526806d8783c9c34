-- ===== src/Extraction/Limits.antt =====
-- extractor.py, ExtractLimits, ExtractionStats and the checks of a written file and of a member.
-- The limits and sizes are natural numbers.
use el_sca_ansamble.Prelude.{
  ℕ, suc, ◌+◌, String, Bool, true, false, Option, none, some, List, [], ◌∷◌, ◌++◌, length, ltb,
  if◌then◌else◌,
}
use el_sca_ansamble.Prelude.Text.{lower, ends_with, join, decimal}

pub record ExtractLimits : Type 0 where
  pub max_depth : ℕ
  pub max_files : ℕ
  pub max_bytes : ℕ
  pub max_member_size_bytes : Option ℕ
  pub skip_extensions : Option (List String)

pub record Example : Type 0 where
  pub member : String
  pub reason : String
  pub size : Option ℕ

pub record ExtractionStats : Type 0 where
  pub skipped_by_extension : ℕ
  pub skipped_by_size : ℕ
  pub errored_members : ℕ
  pub skipped_examples : List Example
  pub unsafe_members : List Example
  pub files_written : ℕ
  pub bytes_written : ℕ

abbrev pub new_stats : ExtractionStats
new_stats = record {
  skipped_by_extension = 0;
  skipped_by_size = 0;
  errored_members = 0;
  skipped_examples = [];
  unsafe_members = [];
  files_written = 0;
  bytes_written = 0;
}

-- The exceptions that the extraction meets, by the classes its handlers name. A
-- NotImplementedError and an ExtractionLimitError are RuntimeErrors. `bad_archive` is the error
-- class of the archive library at hand, `other` any class that no handler names.
pub data Exception : Type 0 where
  value_error os_error runtime_error limit_error bad_archive other : String → Exception

-- `str(exc)`
abbrev pub text_of : Exception → String
text_of (value_error message) = message
text_of (os_error message) = message
text_of (runtime_error message) = message
text_of (limit_error message) = message
text_of (bad_archive message) = message
text_of (other message) = message

-- At most 20 examples are kept.
unfoldable pub keep_example : Example → List Example → List Example
keep_example e es = if ltb (length es) 20 then es ++ e ∷ [] else es

unfoldable pub note_skipped : String → String → Option ℕ → ExtractionStats → ExtractionStats
note_skipped member reason size stats = record stats {
  skipped_examples =
      keep_example (record { member = member; reason = reason; size = size })
        stats.skipped_examples;
}

unfoldable pub note_member_error : String → String → Option ℕ → ExtractionStats → ExtractionStats
note_member_error member reason size stats = record stats {
  errored_members = suc stats.errored_members;
  skipped_examples =
      keep_example (record { member = member; reason = reason; size = size })
        stats.skipped_examples;
}

unfoldable pub note_unsafe_member : String → String → Option ℕ → ExtractionStats → ExtractionStats
note_unsafe_member member reason size stats = record stats {
  errored_members = suc stats.errored_members;
  unsafe_members =
      keep_example (record { member = member; reason = reason; size = size }) stats.unsafe_members;
}

-- The tests that _note_written_file and _recount_tree_usage share.
unfoldable pub limit_breach : ExtractLimits → ExtractionStats → Option Exception
limit_breach limits stats =
    if ltb limits.max_files stats.files_written
    then some (
        limit_error
          (join "" ("extracted file count exceeds max_files=" ∷ decimal limits.max_files ∷ [])))
    else if ltb limits.max_bytes stats.bytes_written
    then some (
        limit_error (join "" ("extracted size exceeds max_bytes=" ∷ decimal limits.max_bytes ∷ [])))
    else none

-- `size` is what the file system says of the file just written.
unfoldable pub note_written_file :
    ℕ → ExtractLimits → ExtractionStats → ExtractionStats × Option Exception
note_written_file size limits stats =
    let stats' : ExtractionStats = record stats {
      files_written = suc stats.files_written;
      bytes_written = stats.bytes_written + size;
    } in
    (stats', limit_breach limits stats')

-- `files` and `bytes` are what _scan_tree_usage counts under the output root.
unfoldable pub recount_tree_usage :
    ℕ → ℕ → ExtractLimits → ExtractionStats → ExtractionStats × Option Exception
recount_tree_usage files bytes limits stats =
    let stats' : ExtractionStats = record stats { files_written = files; bytes_written = bytes } in
    (stats', limit_breach limits stats')

-- The first extension that the lower-case name ends in.
unfoldable pub skipped_extension : String → List String → Option String
skipped_extension name [] = none
skipped_extension name (ext ∷ exts) =
    if ends_with name ext then some ext else skipped_extension name exts

abbrev is_oversize : Option ℕ → Option ℕ → Bool
is_oversize (some limit) (some size) = ltb limit size
is_oversize (some limit) none = false
is_oversize none size = false

abbrev shown : Option ℕ → String
shown none = "None"
shown (some n) = decimal n

-- The extension test, on the outcome of the loop, then the size test.
unfoldable pub skip_by :
    Option String → String → Option ℕ → ExtractLimits → ExtractionStats → ExtractionStats × Bool
skip_by (some ext) member size limits stats = (
  (let noted = note_skipped member (join "" ("extension " ∷ ext ∷ [])) size stats in
      record noted { skipped_by_extension = suc noted.skipped_by_extension }),
  true,
)
skip_by none member size limits stats =
    if is_oversize limits.max_member_size_bytes size
    then (
      (let noted =
            note_skipped member (join "" ("size>" ∷ shown limits.max_member_size_bytes ∷ [])) size
              stats in
          record noted { skipped_by_size = suc noted.skipped_by_size }),
      true,
    )
    else (stats, false)

abbrev extension_of : String → Option (List String) → Option String
extension_of member none = none
extension_of member (some exts) = skipped_extension (lower member) exts

unfoldable pub should_skip_member :
    String → Option ℕ → ExtractLimits → ExtractionStats → ExtractionStats × Bool
should_skip_member member size limits stats =
    skip_by (extension_of member limits.skip_extensions) member size limits stats
