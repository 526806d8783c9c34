-- ===== src/Sbom/Ending.antt =====
-- Functions that do not run out of fuel, and the fuel for the walk over one document.
use el_sca_ansamble.Prelude.{
  ℕ, ◌≤◌, String, ◌≡◌, ◌≢◌, refl, Bool, true, false, Option, none, some, List, if◌then◌else◌, arith,
}
use el_sca_ansamble.Prelude.Keys.{string_eq}
use el_sca_ansamble.Sbom.Json.{
  Json, null, boolean, number, string, array, object, Items, no_items, item, Fields, get, truthy,
}
use el_sca_ansamble.Sbom.Walk.{Walked, exhausted, raised, found, chain, components_from_cyclonedx}
use el_sca_ansamble.Sbom.Traversal.{outcome, components_from_cyclonedx-visit_nested}
use el_sca_ansamble.Sbom.Nested.{passes_nested, visit_nested}
use el_sca_ansamble.Sbom.Components.{JsonFile, spdx_component, each_named, over}

-- The passes that the walk over a document makes.
abbrev pub doc_passes : Option Json → ℕ
doc_passes (some (object doc)) = passes_nested doc
doc_passes (some null) = 0
doc_passes (some (boolean b)) = 0
doc_passes (some (number w b)) = 0
doc_passes (some (string w)) = 0
doc_passes (some (array xs)) = 0
doc_passes none = 0

abbrev pub Enough : ℕ → JsonFile → Type 0
Enough fuel f = doc_passes f.doc ≤ fuel

module _ {A : Type 0} where
  abbrev pub Ended : Walked A → Type 0
  Ended exhausted = ⊥
  Ended raised = Unit
  Ended (found a) = Unit

  pub Ended-nonexhausted : (w : Walked A) → Ended w → w ≢ exhausted
  Ended-nonexhausted exhausted h e = h
  Ended-nonexhausted raised h e = ground arith
  Ended-nonexhausted (found a) h e = ground arith

  pub if-Ended : (b : Bool) (v w : Walked A) → Ended v → Ended w → Ended (if b then v else w)
  if-Ended true v w h k = h
  if-Ended false v w h k = k

module _ {A B : Type 0} where
  pub chain-Ended :
      (w : Walked A) (next : A → Walked B)
      → Ended w
      → ((a : A) → w ≡ found a → Ended (next a))
      → Ended (chain w next)
  chain-Ended exhausted next h k = absurd h
  chain-Ended raised next h k = tt
  chain-Ended (found a) next h k = k a refl

outcome-Ended : (o : Option (List Fields)) → Ended (outcome o)
outcome-Ended none = tt
outcome-Ended (some cs) = tt

pub cyclonedx-Ended :
    (fuel : ℕ) (doc : Fields)
    → passes_nested doc ≤ fuel
    → Ended (components_from_cyclonedx fuel doc)
cyclonedx-Ended fuel doc h =
    rw (components_from_cyclonedx-visit_nested fuel doc h) (outcome-Ended (visit_nested doc))

pub each_named-Ended :
    (component : Fields → Walked Fields)
    → ((fs : Fields) → Ended (component fs))
    → (xs : Items) → Ended (each_named component xs)
unfolding each_named
each_named-Ended component k no_items = tt
each_named-Ended component k (item (object fs) xs) =
    if-Ended (truthy (get "name" fs)) _ _
      (chain-Ended (component fs) _ (k fs) (λ c e.
        chain-Ended (each_named component xs) _ (each_named-Ended component k xs) (λ cs f. tt)))
      (each_named-Ended component k xs)
each_named-Ended component k (item null xs) = each_named-Ended component k xs
each_named-Ended component k (item (boolean b) xs) = each_named-Ended component k xs
each_named-Ended component k (item (number w b) xs) = each_named-Ended component k xs
each_named-Ended component k (item (string w) xs) = each_named-Ended component k xs
each_named-Ended component k (item (array ys) xs) = each_named-Ended component k xs

pub over-Ended :
    (loop : Items → Walked (List Fields)) (o : Option Items)
    → ((xs : Items) → Ended (loop xs))
    → Ended (over loop o)
over-Ended loop none k = tt
over-Ended loop (some xs) k = k xs

pub spdx_component-Ended :
    (repr : Json → String) (pkg : Fields) (o : Option Items) → Ended (spdx_component repr pkg o)
spdx_component-Ended repr pkg none = tt
spdx_component-Ended repr pkg (some refs) = tt
