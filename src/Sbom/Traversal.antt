-- ===== src/Sbom/Traversal.antt =====
-- The walk with a stack against the recursion over the nested components.
use el_sca_ansamble.Prelude.{
  ℕ, zero, suc, ◌+◌, ◌≤◌, ◌≡◌, refl, sym, ap, ◌∙◌, Option, none, some, List, [], arith,
}
use el_sca_ansamble.Prelude.Keys.{string_eq}
use el_sca_ansamble.Sbom.Json.{
  null, boolean, number, string, array, object, Items, no_items, item, Fields, get, iterated,
}
use el_sca_ansamble.Sbom.Walk.{
  Walked, raised, found, push, own, before, walk, extend, start, components_from_cyclonedx,
}
use el_sca_ansamble.Sbom.Nested.{
  both, visit, visit_nested, visit_items, passes, passes_nested, passes_items, both_assoc,
  left_empty, both_empty, pending, push-pending, push-passes, visit_all, passes_all,
  nested-iterated,
}

abbrev pub outcome : Option (List Fields) → Walked (List Fields)
outcome none = raised
outcome (some cs) = found cs

before-outcome :
    (cs : List Fields) (a : Option (List Fields))
    → before cs (outcome a) ≡ outcome (both (some cs) a)
before-outcome cs none = refl
before-outcome cs (some ds) = refl

both-outcome :
    (cs : List Fields) (a b : Option (List Fields))
    → before cs (outcome (both a b)) ≡ outcome (both (both (some cs) a) b)
both-outcome cs a b = before-outcome cs (both a b) ∙ ap outcome (sym (both_assoc (some cs) a b))

abbrev Follows : (Items → Walked (List Fields)) → ℕ → Type 0
Follows rest fuel =
    (stack : Items) → passes_items stack ≤ fuel → rest stack ≡ outcome (pending stack)

extend-pending :
    (rest : Items → Walked (List Fields)) (fuel : ℕ) (fs : Fields) (stack : Items)
    (nested : Option Items)
    → Follows rest fuel
    → passes_all nested + passes_items stack ≤ fuel
    → extend rest fs stack nested
      ≡ outcome (both (both (some (own fs)) (visit_all nested)) (pending stack))
extend-pending rest fuel fs stack none follows h = refl
extend-pending rest fuel fs stack (some xs) follows h =
    ap (before (own fs))
      (follows (push xs stack) (rw (push-passes xs stack) h) ∙ ap outcome (push-pending xs stack))
    ∙ both-outcome (own fs) (visit_items xs) (pending stack)

-- A value that is no mapping leaves nothing.
skip-pending : (stack : Items) → pending stack ≡ both (some []) (pending stack)
skip-pending stack = left_empty (pending stack)

walk-pending : (fuel : ℕ) → Follows (walk fuel) fuel
unfolding visit passes walk
walk-pending fuel no_items h = refl
walk-pending zero (item null stack) h = absurd (omega arith)
walk-pending zero (item (boolean b) stack) h = absurd (omega arith)
walk-pending zero (item (number w b) stack) h = absurd (omega arith)
walk-pending zero (item (string w) stack) h = absurd (omega arith)
walk-pending zero (item (array xs) stack) h = absurd (omega arith)
walk-pending zero (item (object fs) stack) h = absurd (omega arith)
walk-pending (suc fuel) (item null stack) h =
    walk-pending fuel stack (omega arith) ∙ ap outcome (skip-pending stack)
walk-pending (suc fuel) (item (boolean b) stack) h =
    walk-pending fuel stack (omega arith) ∙ ap outcome (skip-pending stack)
walk-pending (suc fuel) (item (number w b) stack) h =
    walk-pending fuel stack (omega arith) ∙ ap outcome (skip-pending stack)
walk-pending (suc fuel) (item (string w) stack) h =
    walk-pending fuel stack (omega arith) ∙ ap outcome (skip-pending stack)
walk-pending (suc fuel) (item (array xs) stack) h =
    walk-pending fuel stack (omega arith) ∙ ap outcome (skip-pending stack)
walk-pending (suc fuel) (item (object fs) stack) h =
    let e = nested-iterated fs in
    extend-pending (walk fuel) fuel fs stack (iterated (get "components" fs)) (walk-pending fuel)
      (omega (arith, e.1, h))
    ∙ ap (λ z. outcome (both (both (some (own fs)) z) (pending stack))) (sym e.0)

start-pending :
    (fuel : ℕ) (nested : Option Items)
    → passes_all nested ≤ fuel
    → start fuel nested ≡ outcome (visit_all nested)
unfolding passes
start-pending fuel none h = refl
start-pending fuel (some xs) h =
    walk-pending fuel (push xs no_items) (omega (arith, push-passes xs no_items, h))
    ∙ ap outcome (push-pending xs no_items ∙ both_empty (visit_items xs))

-- The walk over a document ends, with fuel for one pass for each value that it meets, and then
-- gives what the recursion over the nested components gives: each component with a name, at any
-- depth, once, the later of two neighbours first and each before those that it nests. It raises
-- exactly where the recursion does: at a "components" value that is `true` or a number other than
-- zero. Another value that is no list nests nothing.
pub components_from_cyclonedx-visit_nested :
    (fuel : ℕ) (doc : Fields)
    → passes_nested doc ≤ fuel
    → components_from_cyclonedx fuel doc ≡ outcome (visit_nested doc)
unfolding components_from_cyclonedx
components_from_cyclonedx-visit_nested fuel doc h =
    let e = nested-iterated doc in
    start-pending fuel (iterated (get "components" doc)) (omega (arith, e.1, h))
    ∙ ap outcome (sym e.0)
