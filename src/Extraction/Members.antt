-- ===== src/Extraction/Members.antt =====
-- extractor.py, _extract_zip and _extract_tar. A member carries what the archive library says of it
-- and how the calls that unpack it end; the names of the directories made and the files opened are
-- logged in the order of the calls.
use el_sca_ansamble.Prelude.{
  ℕ, String, Bool, true, false, ◌&&◌, ◌||◌, Option, none, some, List, [], ◌∷◌, ◌++◌, ◌⊎◌, inl, inr,
  if◌then◌else◌,
}
use el_sca_ansamble.Prelude.Keys.{◌==◌, nat_eq, string_eq}
use el_sca_ansamble.Prelude.Text.{join}
use el_sca_ansamble.Extraction.Limits.{
  ExtractLimits, ExtractionStats, Exception, value_error, other, text_of, note_member_error,
  note_unsafe_member, note_written_file, should_skip_member,
}
use el_sca_ansamble.Extraction.Names.{PathParts, rstrip, lstrip}
use el_sca_ansamble.Extraction.Paths.{parent, ensure_safe_member, posix_name}

-- `mkdir`, the opening of the source and of the destination, the copying, each with the exception
-- it raises, and the size of the file that results.
pub record Effects : Type 0 where
  pub made : Option Exception
  pub opened : Option Exception
  pub created : Option Exception
  pub copied : Option Exception
  pub written : ℕ

-- A member of a zip or a tar file. `is_file` and `has_source` (extractfile gives no `None`) are
-- read for tar files only.
pub record Member : Type 0 where
  pub filename : String
  pub is_dir : Bool
  pub is_file : Bool
  pub has_source : Bool
  pub file_size : ℕ
  pub effects : Effects

-- What the extraction changes: the statistics and the file system.
pub record Run : Type 0 where
  pub stats : ExtractionStats
  pub touched : List PathParts

abbrev pub Step : Type 0
Step = Run × Option Exception

-- One call after another, unless the first raised.
abbrev pub after : Step → (Run → Step) → Step
after (run, none) next = next run
after (run, some e) next = (run, some e)

abbrev pub touch : PathParts → Run → Run
touch path run = record run { touched = run.touched ++ path ∷ [] }

-- `path.mkdir(parents=True, exist_ok=True)`
unfoldable pub mkdir : PathParts → Option Exception → Run → Step
mkdir path e run = (touch path run, e)

-- `path.open("wb")`: the destination is in place even where the copying breaks off.
unfoldable pub create : PathParts → Option Exception → Run → Step
create path (some e) run = (run, some e)
create path none run = (touch path run, none)

unfoldable pub note_written : ℕ → ExtractLimits → Run → Step
note_written size limits run =
    let (stats, e) = note_written_file size limits run.stats in (record run { stats = stats }, e)

-- The calls that both loops share, from the parent's `mkdir` on.
unfoldable pub copy_member : PathParts → ExtractLimits → Member → Run → Step
copy_member target limits m run = after (mkdir (parent target) m.effects.made run) (λ r1.
    if m.has_source
    then after (r1, m.effects.opened)
        (λ r2.
          after (create target m.effects.created r2)
            (λ r3. after (r3, m.effects.copied) (note_written m.effects.written limits)))
    else (r1, m.effects.opened))

-- `if _should_skip_member(...): continue`, on its outcome.
unfoldable pub unless_skipped :
    PathParts → ExtractLimits → Member → Run → ExtractionStats × Bool → Step
unless_skipped target limits m run (stats, true) = (record run { stats = stats }, none)
unless_skipped target limits m run (stats, false) =
    copy_member target limits m (record run { stats = stats })

-- What follows the check of a member's name, on its outcome.
unfoldable pub zip_target : ExtractLimits → Member → Run → String ⊎ PathParts → Step
zip_target limits m run (inl message) = (run, some (value_error message))
zip_target limits m run (inr target) =
    if m.is_dir
    then mkdir target m.effects.made run
    else unless_skipped target limits m run
        (should_skip_member m.filename (some m.file_size) limits run.stats)

-- The body of the loop's `try` for zip files. The library always gives a source there.
unfoldable pub zip_member : PathParts → ExtractLimits → Member → Run → Step
zip_member target_dir limits m run =
    zip_target limits (record m { has_source = true }) run
      (ensure_safe_member target_dir m.filename)

abbrev is_slash : ℕ → Bool
is_slash c = c == b'/'

-- `member.name.replace("\\", "/").strip("/")`
abbrev pub raw_name : String → String
raw_name name = lstrip is_slash (rstrip is_slash (posix_name name))

unfoldable pub tar_target : ExtractLimits → Member → Run → String ⊎ PathParts → Step
tar_target limits m run (inl message) = (run, some (value_error message))
tar_target limits m run (inr target) =
    if m.is_dir
    then mkdir target m.effects.made run
    else if m.is_file
    then unless_skipped target limits m run
        (should_skip_member m.filename (some m.file_size) limits run.stats)
    else (run, none)

-- The body of the loop's `try` for tar files.
unfoldable pub tar_member : PathParts → ExtractLimits → Member → Run → Step
tar_member target_dir limits m run =
    if (raw_name m.filename == "" || raw_name m.filename == ".") && m.is_dir
    then mkdir target_dir m.effects.made run
    else tar_target limits m run (ensure_safe_member target_dir m.filename)

-- The `except` clauses; `label` is "zip member: " or "tar member: ".
unfoldable pub handled : String → Member → Step → Step
handled label m (run, none) = (run, none)
handled label m (run, some (value_error message)) = (
  record run {
    stats =
        note_unsafe_member m.filename (join "" (label ∷ message ∷ [])) (some m.file_size) run.stats;
  },
  none,
)
handled label m (run, some (other message)) = (run, some (other message))
handled label m (run, some e) = (
  record run {
    stats =
        note_member_error m.filename (join "" (label ∷ text_of e ∷ [])) (some m.file_size)
          run.stats;
  },
  none,
)

-- `for member in ...: try: ... except ...: continue`
unfoldable pub each_member : String → (Member → Run → Step) → List Member → Run → Step
each_member label body [] run = (run, none)
each_member label body (m ∷ ms) run =
    after (handled label m (body m run)) (each_member label body ms)

unfoldable pub extract_zip : PathParts → ExtractLimits → List Member → Run → Step
extract_zip target_dir limits ms run =
    each_member "zip member: " (zip_member target_dir limits) ms run

unfoldable pub extract_tar : PathParts → ExtractLimits → List Member → Run → Step
extract_tar target_dir limits ms run =
    each_member "tar member: " (tar_member target_dir limits) ms run
