-- ===== src/CollisionFilter/Platforms.antt =====
-- `platform_disproves` and `filter_platform_mismatches`: NVD's target_sw against the ecosystem.
use Prim.Native.String.{◌++◌ as str_append, compare}
use text.Mathlib.Text.{is_lt}
use el_sca_ansamble.Prelude.{
  ℕ, zero, suc, String, Bool, true, false, ◌&&◌, ◌||◌, not, Option, none, some, List, [], ◌∷◌, ◌++◌,
  any, all, leb, ◌==◌ as nat_beq, if◌then◌else◌,
}
use el_sca_ansamble.Prelude.Keys.{◌==◌, string_eq, pair_eq, contains, lookup}
use el_sca_ansamble.Prelude.Sort.{sort}
use el_sca_ansamble.Prelude.Text.{lower, join, span, split, remove_prefix}
use el_sca_ansamble.CollisionFilter.Finding.{Finding, Dropped, text_of, is_cve_bin_tool}
use el_sca_ansamble.CollisionFilter.Vendor.{Groups, Artifact, found, add_group}

-- `_ECOSYSTEM_TARGET_SW`
abbrev pub ecosystem_target_sw : List (String × List String)
ecosystem_target_sw =
    ("nuget", ".net" ∷ "dotnet" ∷ ".net_framework" ∷ "asp.net" ∷ "asp.net_core" ∷ "c#" ∷ [])
    ∷ ("maven", "java" ∷ "jre" ∷ "jdk" ∷ "kotlin" ∷ "scala" ∷ [])
    ∷ ("npm", "node.js" ∷ "nodejs" ∷ "javascript" ∷ "browser" ∷ "typescript" ∷ [])
    ∷ ("pypi", "python" ∷ [])
    ∷ ("gem", "ruby" ∷ "rails" ∷ "ruby_on_rails" ∷ [])
    ∷ ("golang", "go" ∷ "golang" ∷ [])
    ∷ ("composer", "php" ∷ [])
    ∷ ("cargo", "rust" ∷ [])
    ∷ ("conan", "c" ∷ "c++" ∷ "c\\+\\+" ∷ [])
    ∷ ("cocoapods", "swift" ∷ "objective-c" ∷ "ios" ∷ [])
    ∷ []

abbrev pub more_platforms : List String
more_platforms =
    "jenkins" ∷ "wordpress" ∷ "drupal" ∷ "joomla" ∷ "moodle" ∷ "magento" ∷ "postgresql" ∷ "mysql"
    ∷ "mariadb" ∷ "mongodb" ∷ "kubernetes" ∷ "docker" ∷ "android" ∷ "ios" ∷ "erlang" ∷ "elixir"
    ∷ "perl" ∷ "lua" ∷ "r" ∷ "haskell" ∷ []

unfoldable pub all_platforms : List (String × List String) → List String
all_platforms [] = []
all_platforms ((eco, platforms) ∷ table) = platforms ++ all_platforms table

-- Membership in `_MEANINGFUL_TARGET_SW`
unfoldable pub is_meaningful : String → Bool
unfolding all_platforms contains
is_meaningful sw = contains sw (all_platforms ecosystem_target_sw ++ more_platforms)

-- The platforms of an ecosystem; `none` without a mapping.
unfoldable pub platforms_of : String → Option (List String)
unfolding lookup
platforms_of eco = lookup eco ecosystem_target_sw

abbrev pub keep_known : String → Option (List String) → List String → List String
keep_known eco none rest = rest
keep_known eco (some _) rest = eco ∷ rest

-- `{e for e in ecosystems if e in _ECOSYSTEM_TARGET_SW}`
unfoldable pub known_ecosystems : List String → List String
known_ecosystems [] = []
known_ecosystems (eco ∷ ecos) = keep_known eco (platforms_of eco) (known_ecosystems ecos)

-- `allowed`: the platforms of the known ecosystems.
unfoldable pub allowed : List String → List String
allowed [] = []
allowed (eco ∷ ecos) = found (platforms_of eco) ++ allowed ecos

abbrev pub is_empty : List String → Bool
is_empty [] = true
is_empty (_ ∷ _) = false

-- Do these CPE platforms rule out a component from these ecosystems?
unfoldable pub platform_disproves : List String → List String → Bool
platform_disproves ecosystems target_sw =
    let known = known_ecosystems ecosystems in
    if is_empty known || is_empty target_sw
    then false
    else if not (all is_meaningful target_sw)
    then false
    else not (any (λ sw. contains sw (allowed known)) target_sw)

abbrev nth : ℕ → List String → String
nth n [] = ""
nth zero (x ∷ xs) = x
nth (suc n) (x ∷ xs) = nth n xs

-- `target_sw` is the 11th field of a CPE 2.3 string; a shorter string has none.
unfoldable pub target_sw_from_cpe : String → String
unfolding lower split
target_sw_from_cpe criteria = lower (nth 10 (split (λ c. nat_beq c b':') criteria))

-- `[a-z0-9.+-]`
abbrev is_type_char : ℕ → Bool
is_type_char c =
    leb b'a' c && leb c b'z'
    || leb b'0' c && leb c b'9'
    || nat_beq c b'.'
    || nat_beq c b'+'
    || nat_beq c b'-'

abbrev type_part : Option String → Option String
type_part none = none
type_part (some rest) =
    let (type, tail) = span is_type_char rest in
    if type == "" then none else elim (remove_prefix "/" tail) [ none ↦ none | some _ ↦ some type ]

-- The match of `_PURL_TYPE`.
unfoldable pub purl_type : String → Option String
unfolding span remove_prefix
purl_type purl = type_part (remove_prefix "pkg:" purl)

abbrev note_type : Option String → String → String → Groups → Groups
note_type none name version out = out
note_type (some type) name version out =
    if name == "" then out else add_group (name, "") type (add_group (name, version) type out)

unfoldable pub ecosystems_onto : List Artifact → Groups → Groups
unfolding purl_type add_group lower
ecosystems_onto [] out = out
ecosystems_onto (art ∷ artifacts) out =
    ecosystems_onto artifacts (
      note_type (purl_type (text_of art.purl)) (lower (text_of art.name)) (text_of art.version) out)

unfoldable pub ecosystems_from_sbom : List Artifact → Groups
unfolding ecosystems_onto
ecosystems_from_sbom artifacts = ecosystems_onto artifacts []

-- `a or b`, for the results of `get`
abbrev or_else : List String → List String → List String
or_else [] b = b
or_else (x ∷ xs) b = x ∷ xs

unfoldable pub ecosystems_for : Finding → Groups → List String
ecosystems_for finding ecosystems =
    let product = lower (text_of finding.product) in
    or_else (found (lookup (product, text_of finding.version) ecosystems))
      (found (lookup (product, "") ecosystems))

abbrev pub Platforms : Type 0
Platforms = List (String × List String)

unfoldable pub platforms_for : Finding → Platforms → List String
platforms_for finding platforms = found (lookup (text_of finding.id) platforms)

abbrev str_less : String → String → Bool
str_less a b = is_lt (compare a b)

abbrev pub mismatch : Finding → List String → List String → Dropped
mismatch finding eco tsw =
    let platforms = join ", " (sort str_less tsw) in
    record {
      finding = finding;
      dropped_reason = str_append "NVD marks this CVE as affecting " (
          str_append platforms (
            str_append ", but the component ships as " (
              str_append (join ", " (sort str_less eco))
                " (different implementation of the same project name)")));
      dropped_evidence =
          str_append "CPE target_sw="
            (str_append platforms (str_append " ≠ " (join "/" (sort str_less eco))));
    }

unfoldable pub filter_platform_mismatches :
    List Finding → Groups → Platforms → List Finding × List Dropped
filter_platform_mismatches [] ecosystems platforms = ([], [])
filter_platform_mismatches (finding ∷ findings) ecosystems platforms =
    let (kept, dropped) = filter_platform_mismatches findings ecosystems platforms in
    let eco = ecosystems_for finding ecosystems in
    let tsw = platforms_for finding platforms in
    if not (is_cve_bin_tool finding)
    then (finding ∷ kept, dropped)
    else if platform_disproves eco tsw
    then (kept, mismatch finding eco tsw ∷ dropped)
    else (finding ∷ kept, dropped)
