-- ===== src/Sbom/Walk.antt =====
-- sbom_ingest.py, _components_from_cyclonedx: the walk over nested components with a stack. The
-- stack is written with its top first.
use el_sca_ansamble.Prelude.{ℕ, zero, suc, Option, none, some, List, [], ◌∷◌, ◌++◌, if◌then◌else◌}
use el_sca_ansamble.Prelude.Keys.{string_eq}
use el_sca_ansamble.Sbom.Json.{
  null, boolean, number, string, array, object, Items, no_items, item, Fields, get, truthy,
  iterated,
}

-- How a function ends: out of fuel, with an exception that no handler names, or with its result.
pub data Walked (A : Type 0) : Type 0 where
  exhausted raised : Walked A
  found : A → Walked A

-- One function after another.
abbrev pub chain : {A B : Type 0} → Walked A → (A → Walked B) → Walked B
chain exhausted next = exhausted
chain raised next = raised
chain (found a) next = next a

-- `stack.extend(xs)`: the last element comes to the top.
abbrev pub push : Items → Items → Items
push no_items stack = stack
push (item x xs) stack = push xs (item x stack)

abbrev pub own : Fields → List Fields
own fs = if truthy (get "name" fs) then fs ∷ [] else []

abbrev pub before : List Fields → Walked (List Fields) → Walked (List Fields)
before cs exhausted = exhausted
before cs raised = raised
before cs (found ds) = found (cs ++ ds)

-- What follows the popping of a mapping, on what it nests; `rest` is the rest of the loop.
abbrev pub extend :
    (Items → Walked (List Fields)) → Fields → Items → Option Items → Walked (List Fields)
extend rest fs stack none = raised
extend rest fs stack (some xs) = before (own fs) (rest (push xs stack))

-- `while stack`, with fuel for as many passes.
unfoldable pub walk : ℕ → Items → Walked (List Fields)
walk fuel no_items = found []
walk zero (item x stack) = exhausted
walk (suc fuel) (item (object fs) stack) =
    extend (walk fuel) fs stack (iterated (get "components" fs))
walk (suc fuel) (item null stack) = walk fuel stack
walk (suc fuel) (item (boolean b) stack) = walk fuel stack
walk (suc fuel) (item (number w b) stack) = walk fuel stack
walk (suc fuel) (item (string w) stack) = walk fuel stack
walk (suc fuel) (item (array xs) stack) = walk fuel stack

abbrev pub start : ℕ → Option Items → Walked (List Fields)
start fuel none = raised
start fuel (some xs) = walk fuel (push xs no_items)

unfoldable pub components_from_cyclonedx : ℕ → Fields → Walked (List Fields)
components_from_cyclonedx fuel doc = start fuel (iterated (get "components" doc))
