-- ===== src/CollisionFilter/Collisions.antt =====
-- `filter_vendor_collisions`: cve-bin-tool findings whose vendor the SBOM's groupIds disprove.
use Prim.Native.String.{◌++◌ as str_append, compare}
use text.Mathlib.Text.{is_lt}
use el_sca_ansamble.Prelude.{
  ℕ, String, Bool, ◌&&◌, not, List, [], ◌∷◌, ◌++◌, any, length, ltb, if◌then◌else◌,
}
use el_sca_ansamble.Prelude.Keys.{string_eq, pair_eq, contains, add, lookup, insert}
use el_sca_ansamble.Prelude.Sort.{sort}
use el_sca_ansamble.Prelude.Text.{lower, join}
use el_sca_ansamble.CollisionFilter.Finding.{
  Finding, Dropped, text_of, shown, is_cve_bin_tool, is_real_vendor,
}
use el_sca_ansamble.CollisionFilter.Vendor.{
  Key, Groups, names_an_owner, vendor_matches_group, found, groups_for, has_synthesised_coordinates,
  is_inhouse_version,
}

unfoldable pub key_of : Finding → Key
unfolding lower
key_of finding = (lower (text_of finding.product), text_of finding.version)

-- `vendors_by_component`: the real vendors named for each component.
abbrev pub Vendors : Type 0
Vendors = List (Key × List String)

unfoldable pub note_vendor : Finding → Vendors → Vendors
note_vendor finding vendors =
    if is_real_vendor finding
    then insert (key_of finding)
        (add (lower (text_of finding.vendor)) (found (lookup (key_of finding) vendors))) vendors
    else vendors

unfoldable pub vendors_onto : List Finding → Vendors → Vendors
vendors_onto [] vendors = vendors
vendors_onto (finding ∷ findings) vendors = vendors_onto findings (note_vendor finding vendors)

-- `{g for g in component_groups if names_an_owner(g)}`
unfoldable pub owners : List String → List String
unfolding names_an_owner
owners [] = []
owners (g ∷ gs) = let rest = owners gs in if names_an_owner g then g ∷ rest else rest

abbrev str_less : String → String → Bool
str_less a b = is_lt (compare a b)

abbrev pub sorted_text : List String → String
sorted_text names = join ", " (sort str_less names)

-- What the first pass decides about a finding.
pub data Verdict : Type 0 where
  keep defer : Verdict
  drop : Dropped → Verdict

abbrev pub inhouse : Finding → Dropped
inhouse finding = record {
  finding = finding;
  dropped_reason = str_append "'" (
      str_append (text_of finding.product) (
        str_append " " (
          str_append (text_of finding.version) (
            str_append "' is an in-house build with no Maven " (
              str_append "coordinates (groupId synthesised from the file name), so it "
                "is not the registry artifact this vendor owns (name collision)")))));
  dropped_evidence = "no Maven coordinates (-SNAPSHOT build)";
}

abbrev pub uncorroborated : Finding → List String → Dropped
uncorroborated finding known = record {
  finding = finding;
  dropped_reason = str_append "vendor '" (
      str_append (text_of finding.vendor) (
        str_append "' is not corroborated by groupId "
          (str_append (sorted_text known) " (name collision)")));
  dropped_evidence = sorted_text known;
}

-- Does a groupId that names an owner vouch for the finding's vendor?
unfoldable pub corroborated : Finding → List String → Bool
corroborated finding known =
    any (λ g. vendor_matches_group (text_of finding.vendor) g (text_of finding.product)) known

abbrev pub is_inhouse : Finding → Groups → Bool
is_inhouse finding groups =
    is_inhouse_version (text_of finding.version)
    && has_synthesised_coordinates (text_of finding.product) (groups_for finding groups)

abbrev pub vendor_count : Finding → Vendors → ℕ
vendor_count finding vendors = length (found (lookup (key_of finding) vendors))

abbrev pub judge_owners : Finding → List String → Verdict
judge_owners finding [] = keep
judge_owners finding (g ∷ gs) =
    if corroborated finding (g ∷ gs) then keep else drop (uncorroborated finding (g ∷ gs))

-- The guards of the loop, in their order.
unfoldable pub judge : Groups → Vendors → Finding → Verdict
judge groups vendors finding =
    if not (is_cve_bin_tool finding)
    then keep
    else if is_inhouse finding groups
    then drop (inhouse finding)
    else if not (is_real_vendor finding)
    then defer
    else if ltb (vendor_count finding vendors) 2
    then keep
    else judge_owners finding (owners (groups_for finding groups))

-- The lists that the first pass fills.
pub record Pass : Type 0 where
  pub kept : List Finding
  pub dropped : List Dropped
  pub deferred : List Finding

abbrev pub route : Finding → Verdict → Pass → Pass
route finding keep later = record later { kept = finding ∷ later.kept }
route finding defer later = record later { deferred = finding ∷ later.deferred }
route finding (drop d) later = record later { dropped = d ∷ later.dropped }

unfoldable pub first_pass : Groups → Vendors → List Finding → Pass
first_pass groups vendors [] = record { kept = []; dropped = []; deferred = [] }
first_pass groups vendors (finding ∷ findings) =
    route finding (judge groups vendors finding) (first_pass groups vendors findings)

-- `disproved_components`
unfoldable pub disproved : List Dropped → List Key
disproved [] = []
disproved (d ∷ ds) = key_of d.finding ∷ disproved ds

abbrev pub same_fan_out : Finding → Dropped
same_fan_out finding = record {
  finding = finding;
  dropped_reason = str_append "no vendor attribution, and every named vendor on " (
      str_append "'" (
        str_append (shown finding.product) (
          str_append " " (
            str_append (shown finding.version)
              (str_append "' was " "disproved by the groupId (same bare-name collision)")))));
  dropped_evidence = "named vendors on this component disproved";
}

-- The second pass over what was deferred.
unfoldable pub second_pass : List Key → List Finding → List Finding × List Dropped
second_pass keys [] = ([], [])
second_pass keys (finding ∷ findings) =
    let (kept, dropped) = second_pass keys findings in
    if contains (key_of finding) keys
    then (kept, same_fan_out finding ∷ dropped)
    else (finding ∷ kept, dropped)

unfoldable pub filter_vendor_collisions : List Finding → Groups → List Finding × List Dropped
filter_vendor_collisions findings groups =
    let first = first_pass groups (vendors_onto findings []) findings in
    let second = second_pass (disproved first.dropped) first.deferred in
    (first.kept ++ second.0, first.dropped ++ second.1)
