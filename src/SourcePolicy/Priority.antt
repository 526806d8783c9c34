-- ===== src/SourcePolicy/Priority.antt =====
-- resilient_updates/source_policy.py, build_sources: what it promises its callers.
use el_sca_ansamble.Prelude.{
  ◌≡◌, ◌↔◌, refl, String, true, Option, none, some, List, ◌++◌, In, Bool-cases, inl, inr,
}
use mathlib.Core.Path.{subst}
use el_sca_ansamble.Prelude.Keys.{string_eq}
use el_sca_ansamble.Prelude.Sort.{Sorted, sort, sort-Sorted, In-sort, In-of_sort}
use el_sca_ansamble.SourcePolicy.Order.{
  SourceCandidate, source_less, clashing, NoLater, NoLater-of_less, NoLater-of_not_less,
  NoLater-trans,
}
use el_sca_ansamble.SourcePolicy.Build.{
  Config, custom_matches, tool_candidates, only_enabled, ranked, build_sources,
}
use el_sca_ansamble.SourcePolicy.Offered.{IsOffered, Each, all-Sound}
use el_sca_ansamble.SourcePolicy.Complete.{In-only_enabled, In-of_only_enabled, all-complete}

module _ (config : Config) (tool layer : String) where
  -- Sorted, and exactly the enabled ones of what is offered.
  abbrev pub IsRanking : List SourceCandidate → Type 0
  IsRanking ss =
      Sorted NoLater ss
      × ((s : SourceCandidate) → In s ss ↔ ((s.enabled ≡ true) × IsOffered config tool layer s))

  sort-IsRanking :
      (cs : List SourceCandidate)
      → tool_candidates config tool layer ≡ some cs
      → IsRanking
          (sort source_less (only_enabled (cs ++ custom_matches tool layer config.custom_entries)))
  sort-IsRanking cs e =
      let all : List SourceCandidate = cs ++ custom_matches tool layer config.custom_entries in
      (
        sort-Sorted source_less NoLater NoLater-trans NoLater-of_less NoLater-of_not_less
            (only_enabled all),
        λ s. (
          λ i.
              let (k, h) =
                In-of_only_enabled s all (In-of_sort source_less s (only_enabled all) i) in
              (h, all-Sound config tool layer cs e s k),
          λ (h, o).
              In-sort source_less s (only_enabled all)
                (In-only_enabled s all (all-complete config tool layer cs s e o) h),
        ),
      )

  ranked-IsRanking :
      (o : Option (List SourceCandidate))
      → tool_candidates config tool layer ≡ o
      → Each IsRanking (ranked tool layer config.custom_entries o)
  ranked-IsRanking none e = tt
  ranked-IsRanking (some cs) e =
      let ss : List SourceCandidate =
        only_enabled (cs ++ custom_matches tool layer config.custom_entries) in
      elim (Bool-cases (clashing ss)) [ inl b ↦ rw b tt | inr b ↦ rw b (sort-IsRanking cs e) ]

-- The sources that `build_sources` returns stand in the order of their priority numbers. They are
-- exactly the enabled candidates of the entries that the configuration has for the tool and the layer:
-- of its repository list, of the custom entries that name both, and of the local sources of syft.
pub build_sources-Sorted :
    (config : Config) (tool layer : String) {ss : List SourceCandidate}
    → build_sources config tool layer ≡ some ss
    → IsRanking config tool layer ss
unfolding build_sources
build_sources-Sorted config tool layer h =
    subst (Each (IsRanking config tool layer)) h
      (ranked-IsRanking config tool layer (tool_candidates config tool layer) refl)
