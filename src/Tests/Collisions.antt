-- ===== src/Tests/Collisions.antt =====
-- Two vendors for one component, one of which its groupId vouches for.
use mathlib.Core.List.{Perm}
use el_sca_ansamble.Prelude.{
  ◌≤◌, ◌≢◌, String, ◌≡◌, refl, true, some, List, [], ◌∷◌, All, any, all, arith,
}
use el_sca_ansamble.Prelude.Keys.{lookup, insert, add, contains, string_eq}
use el_sca_ansamble.Prelude.Text.{lower, upper}
use el_sca_ansamble.CollisionFilter.Finding.{Finding, Dropped, is_real_vendor}
use el_sca_ansamble.CollisionFilter.Vendor.{Groups}
use el_sca_ansamble.CollisionFilter.Collisions.{
  key_of, note_vendor, vendor_count, vendors_onto, filter_vendor_collisions,
}
use el_sca_ansamble.CollisionFilter.Evidence.{
  all_of, HasReason, filter_vendor_collisions-perm, filter_vendor_collisions-reasons,
}
use el_sca_ansamble.CollisionFilter.FanOut.{Names, vendor_count-fan_out}
use el_sca_ansamble.CollisionFilter.Platforms.{
  known_ecosystems, platforms_of, is_meaningful, all_platforms, allowed, Platforms,
  platform_disproves,
}
use el_sca_ansamble.CollisionFilter.Disproof.{Refutes, platform_disproves-Refutes}
use el_sca_ansamble.CollisionFilter.Summary.{
  RowKey, counted, occurrences, summarize_dropped, summarize_dropped-counted,
}

abbrev finding : String → String → Finding
finding vendor id = record {
  tool = some "cve-bin-tool";
  id = some id;
  vendor = some vendor;
  product = some "netty";
  version = some "4.1";
  paths = some "/usr/lib/netty.jar";
}

abbrev findings : List Finding
findings = finding "netty" "CVE-1" ∷ finding "redhat" "CVE-2" ∷ []

abbrev groups : Groups
groups = (("netty", "4.1"), "io.netty" ∷ []) ∷ []

abbrev platforms : Platforms
platforms = ("CVE-1", "node.js" ∷ []) ∷ []

filter_vendor_collisions-perm_example :
    Perm
      (all_of
        (filter_vendor_collisions findings groups).0
        (filter_vendor_collisions findings groups).1)
      findings
filter_vendor_collisions-perm_example = filter_vendor_collisions-perm findings groups

filter_vendor_collisions-reasons_example :
    All
      (HasReason groups (vendors_onto findings []) (filter_vendor_collisions findings groups).1)
      (filter_vendor_collisions findings groups).1
filter_vendor_collisions-reasons_example = filter_vendor_collisions-reasons findings groups

two_vendors : 2 ≤ vendor_count (finding "netty" "CVE-1") (vendors_onto findings [])
unfolding vendors_onto note_vendor lookup insert add contains key_of is_real_vendor lower upper
two_vendors = omega arith

vendor_count-fan_out_example :
    (u v : String) × (u ≢ v)
    × Names findings (key_of (finding "netty" "CVE-1")) u
    × Names findings (key_of (finding "netty" "CVE-1")) v
vendor_count-fan_out_example = vendor_count-fan_out findings (finding "netty" "CVE-1") two_vendors

foreign_platform : platform_disproves ("maven" ∷ []) ("node.js" ∷ []) ≡ true
unfolding platform_disproves known_ecosystems platforms_of all is_meaningful all_platforms any
    allowed contains lookup
foreign_platform = refl

platform_disproves-Refutes_example : Refutes ("maven" ∷ []) ("node.js" ∷ [])
platform_disproves-Refutes_example =
    platform_disproves-Refutes ("maven" ∷ []) ("node.js" ∷ []) foreign_platform

abbrev dropped : List Dropped
dropped =
    record {
      finding = finding "redhat" "CVE-2";
      dropped_reason = "uncorroborated-vendor";
      dropped_evidence = "io.netty";
    }
    ∷ []

abbrev row : RowKey
row = ("redhat", ("netty", "4.1"))

summarize_dropped-counted_example :
    counted row (summarize_dropped dropped) ≡ occurrences row dropped
summarize_dropped-counted_example = summarize_dropped-counted dropped row
