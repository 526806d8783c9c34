-- ===== src/CollisionFilter/Vendor.antt =====
-- What a groupId says of a vendor, and the groupIds that an SBOM holds.
use el_sca_ansamble.Prelude.{
  ℕ, String, Bool, false, ◌&&◌, ◌||◌, not, Option, none, some, List, [], ◌∷◌, any, all,
  ◌==◌ as nat_beq, if◌then◌else◌,
}
use el_sca_ansamble.Prelude.Keys.{◌==◌, string_eq, pair_eq, contains, add, lookup, insert}
use el_sca_ansamble.Prelude.Text.{lower, upper, is_infix, remove_suffix, remove_prefix, split, span}
use el_sca_ansamble.CollisionFilter.Finding.{Finding, text_of}

-- A component: its name in lower case and its version, or the empty version for any.
abbrev pub Key : Type 0
Key = String × String

abbrev pub Groups : Type 0
Groups = List (Key × List String)

-- Is this groupId a reverse-DNS namespace that asserts an owner?
unfoldable pub names_an_owner : String → Bool
unfolding is_infix
names_an_owner group_id = is_infix "." group_id

-- `[.\-_]`
is_separator : ℕ → Bool
is_separator c = nat_beq c b'.' || nat_beq c b'-' || nat_beq c b'_'

abbrev nonempty : List String → List String
nonempty [] = []
nonempty (t ∷ ts) = let rest = nonempty ts in if t == "" then rest else t ∷ rest

unfoldable pub tokens : String → List String
unfolding is_separator split lower
tokens group_id = nonempty (split is_separator (lower group_id))

abbrev with_stem : String → Option String → List String
with_stem vendor none = vendor ∷ []
with_stem vendor (some stem) = vendor ∷ stem ∷ []

unfoldable pub candidates : String → List String
unfolding lower remove_suffix
candidates vendor = let v = lower vendor in with_stem v (remove_suffix "_project" v)

unfoldable pub vendor_matches_group : String → String → String → Bool
unfolding tokens candidates any contains
vendor_matches_group vendor group_id artifact_id =
    any (λ c. contains c (tokens group_id)) (candidates vendor)
    || contains (lower artifact_id) (candidates vendor)

-- `[^/@?#]`
abbrev is_name_char : ℕ → Bool
is_name_char c =
    not (nat_beq c b'/') && not (nat_beq c b'@') && not (nat_beq c b'?') && not (nat_beq c b'#')

-- `[^?#]`
abbrev is_version_char : ℕ → Bool
is_version_char c = not (nat_beq c b'?') && not (nat_beq c b'#')

pub record MavenPurl : Type 0 where
  pub group : String
  pub name : String
  pub version : String

-- A version that does not match is the empty one, as `m.group("version") or ""` has it.
abbrev version_part : Option String → String
version_part none = ""
version_part (some rest) = (span is_version_char rest).0

abbrev name_part : String → Option String → Option MavenPurl
name_part group none = none
name_part group (some rest) =
    let (name, tail) = span is_name_char rest in
    if name == ""
    then none
    else some
        (record { group = group; name = name; version = version_part (remove_prefix "@" tail) })

abbrev group_part : Option String → Option MavenPurl
group_part none = none
group_part (some rest) =
    let (group, tail) = span is_name_char rest in
    if group == "" then none else name_part group (remove_prefix "/" tail)

-- The match of `_MAVEN_PURL`.
unfoldable pub maven_purl : String → Option MavenPurl
unfolding span remove_prefix
maven_purl purl = group_part (remove_prefix "pkg:maven/" purl)

-- An entry of `artifacts` of the Syft SBOM; entries that are no mappings do not occur here.
pub record Artifact : Type 0 where
  pub name : Option String
  pub version : Option String
  pub purl : Option String

abbrev pub found : Option (List String) → List String
found none = []
found (some xs) = xs

-- `groups[key].add(group)`
unfoldable pub add_group : Key → String → Groups → Groups
unfolding lookup insert add
add_group key group groups = insert key (add group (found (lookup key groups))) groups

abbrev note_purl : Option MavenPurl → Groups → Groups
note_purl none groups = groups
note_purl (some m) groups =
    let name = lower m.name in
    add_group (name, "") m.group (add_group (name, m.version) m.group groups)

unfoldable pub groups_onto : List Artifact → Groups → Groups
unfolding maven_purl add_group lower
groups_onto [] groups = groups
groups_onto (art ∷ artifacts) groups =
    groups_onto artifacts (note_purl (maven_purl (text_of art.purl)) groups)

unfoldable pub maven_groups_from_sbom : List Artifact → Groups
unfolding groups_onto
maven_groups_from_sbom artifacts = groups_onto artifacts []

-- Only a version-less key that does not hide several groups is trusted.
abbrev only_one : Option (List String) → List String
only_one (some (g ∷ [])) = g ∷ []
only_one _ = []

abbrev exact_or : Option (List String) → List String → List String
exact_or (some (g ∷ gs)) loose = g ∷ gs
exact_or _ loose = loose

unfoldable pub groups_for : Finding → Groups → List String
unfolding lower lookup
groups_for finding groups =
    let name = lower (text_of finding.product) in
    exact_or (lookup (name, text_of finding.version) groups) (only_one (lookup (name, "") groups))

-- Did Syft invent the groupId from the file name?
unfoldable pub has_synthesised_coordinates : String → List String → Bool
unfolding lower all
has_synthesised_coordinates product [] = false
has_synthesised_coordinates product (g ∷ gs) = all (λ g. lower g == lower product) (g ∷ gs)

unfoldable pub is_inhouse_version : String → Bool
unfolding upper is_infix
is_inhouse_version version = is_infix "SNAPSHOT" (upper version)
