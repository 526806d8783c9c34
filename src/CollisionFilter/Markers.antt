-- ===== src/CollisionFilter/Markers.antt =====
-- Compiler ident strings and files of a known distribution: `filter_compiler_markers`,
-- `distro_from_grype` and `filter_distro_owned_binaries`.
use Prim.Native.String.{◌++◌ as str_append}
use el_sca_ansamble.Prelude.{
  ℕ, String, Bool, false, ◌&&◌, ◌||◌, not, Option, none, some, List, [], ◌∷◌, ◌==◌ as nat_beq,
  if◌then◌else◌,
}
use el_sca_ansamble.Prelude.Keys.{◌==◌, string_eq, contains}
use el_sca_ansamble.Prelude.Text.{lower, is_infix, split, strip}
use el_sca_ansamble.CollisionFilter.Finding.{Finding, Dropped, text_of, is_cve_bin_tool}

unfoldable pub is_compiler_marker : Finding → Bool
is_compiler_marker finding = is_cve_bin_tool finding && lower (text_of finding.product) == "gcc"

abbrev pub compiler_marker : Finding → Dropped
compiler_marker finding = record {
  finding = finding;
  dropped_reason =
      str_append "'GCC: (GNU) x.y' is the toolchain ident in the .comment section of the "
        "binary: it names the compiler that built it, not a shipped gcc/libgcc";
  dropped_evidence = "compiler build marker";
}

unfoldable pub filter_compiler_markers : List Finding → List Finding × List Dropped
filter_compiler_markers [] = ([], [])
filter_compiler_markers (finding ∷ findings) =
    let (kept, dropped) = filter_compiler_markers findings in
    if is_compiler_marker finding
    then (kept, compiler_marker finding ∷ dropped)
    else (finding ∷ kept, dropped)

-- The `distro` mapping of a Grype report; an absent name or version is `none`.
pub record Distro : Type 0 where
  pub name : Option String
  pub version : Option String

-- `none` is a report, or a `distro`, that is no mapping.
unfoldable pub distro_from_grype : Option Distro → String
unfolding strip
distro_from_grype none = ""
distro_from_grype (some distro) =
    let name = strip (text_of distro.name) in
    if name == ""
    then ""
    else strip (str_append name (str_append " " (strip (text_of distro.version))))

abbrev pub os_directories : List String
os_directories = "usr" ∷ "lib" ∷ "lib32" ∷ "lib64" ∷ "bin" ∷ "sbin" ∷ "etc" ∷ []

abbrev but_last : List String → List String
but_last [] = []
but_last (x ∷ []) = []
but_last (x ∷ y ∷ ys) = x ∷ but_last (y ∷ ys)

abbrev any_os : List String → Bool
any_os [] = false
any_os (d ∷ ds) = contains d os_directories || any_os ds

abbrev pub is_slash : ℕ → Bool
is_slash c = nat_beq c b'/' || nat_beq c b'\\'

-- `_OS_TREE.search(paths.replace("\\", "/"))`: a piece between the start or a slash and the next
-- slash is one of the directories.
unfoldable pub in_os_tree : String → Bool
unfolding split contains
in_os_tree paths = any_os (but_last (split is_slash paths))

unfoldable pub is_distro_owned : Finding → Bool
is_distro_owned finding =
    let paths = text_of finding.paths in
    is_cve_bin_tool finding && not (paths == "") && not (is_infix "/opt/" paths) && in_os_tree paths

abbrev pub distro_owned : String → Finding → Dropped
distro_owned distro finding = record {
  finding = finding;
  dropped_reason = str_append "file of a " (
      str_append distro (
        str_append " OS package; Grype/Trivy matched that package against " (
          str_append "the "
            (str_append distro " security feed, which accounts for backported fixes"))));
  dropped_evidence = str_append "OS package file, distro " distro;
}

-- The loop; it runs only where the distribution is known.
unfoldable pub drop_distro_owned : String → List Finding → List Finding × List Dropped
drop_distro_owned distro [] = ([], [])
drop_distro_owned distro (finding ∷ findings) =
    let (kept, dropped) = drop_distro_owned distro findings in
    if is_distro_owned finding
    then (kept, distro_owned distro finding ∷ dropped)
    else (finding ∷ kept, dropped)

unfoldable pub filter_distro_owned_binaries : List Finding → String → List Finding × List Dropped
filter_distro_owned_binaries findings distro =
    if distro == "" then (findings, []) else drop_distro_owned distro findings
