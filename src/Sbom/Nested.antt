-- ===== src/Sbom/Nested.antt =====
-- A recursion over the nested components: the elements of a list in reverse, each before what it
-- nests.
use mathlib.Core.List.{append_assoc, append-nil}
use el_sca_ansamble.Prelude.{
  ℕ, suc, ◌+◌, String, ◌≡◌, refl, sym, ap, ◌∙◌, true, false, Option, none, some, List, [], ◌++◌,
  if◌then◌else◌, Bool-cases, inl, inr, arith,
}
use el_sca_ansamble.Prelude.Keys.{◌==◌, string_eq}
use el_sca_ansamble.Prelude.Text.{text_length}
use el_sca_ansamble.Sbom.Json.{
  Json, null, boolean, number, string, array, object, Items, no_items, item, Fields, no_fields,
  field, get, iterated, characters, field_names,
}
use el_sca_ansamble.Sbom.Walk.{push, own}

-- Two results one after the other; `none` stands for a TypeError.
abbrev pub both : Option (List Fields) → Option (List Fields) → Option (List Fields)
both none d = none
both (some cs) none = none
both (some cs) (some ds) = some (cs ++ ds)

unfoldable mutual
  pub visit : Json → Option (List Fields)
  visit null = some []
  visit (boolean b) = some []
  visit (number w b) = some []
  visit (string w) = some []
  visit (array xs) = some []
  visit (object fs) = both (some (own fs)) (visit_nested fs)

  pub visit_nested : Fields → Option (List Fields)
  visit_nested no_fields = some []
  visit_nested (field k v fs) = if k == "components" then visit_value v else visit_nested fs

  pub visit_value : Json → Option (List Fields)
  visit_value null = some []
  visit_value (boolean b) = if b then none else some []
  visit_value (number w b) = if b then none else some []
  visit_value (string w) = some []
  visit_value (array xs) = visit_items xs
  visit_value (object fs) = some []

  pub visit_items : Items → Option (List Fields)
  visit_items no_items = some []
  visit_items (item x xs) = both (visit_items xs) (visit x)

abbrev field_count : Fields → ℕ
field_count no_fields = 0
field_count (field k v fs) = suc (field_count fs)

-- The passes of the loop that a value asks for.
unfoldable mutual
  pub passes : Json → ℕ
  passes null = 1
  passes (boolean b) = 1
  passes (number w b) = 1
  passes (string w) = 1
  passes (array xs) = 1
  passes (object fs) = suc (passes_nested fs)

  pub passes_nested : Fields → ℕ
  passes_nested no_fields = 0
  passes_nested (field k v fs) = if k == "components" then passes_value v else passes_nested fs

  pub passes_value : Json → ℕ
  passes_value null = 0
  passes_value (boolean b) = 0
  passes_value (number w b) = 0
  passes_value (string w) = text_length w
  passes_value (array xs) = passes_items xs
  passes_value (object fs) = field_count fs

  pub passes_items : Items → ℕ
  passes_items no_items = 0
  passes_items (item x xs) = passes x + passes_items xs

pub both_assoc : (a b c : Option (List Fields)) → both (both a b) c ≡ both a (both b c)
both_assoc none b c = refl
both_assoc (some x) none c = refl
both_assoc (some x) (some y) none = refl
both_assoc (some x) (some y) (some z) = ap some (append_assoc x y z)

pub left_empty : (a : Option (List Fields)) → a ≡ both (some []) a
left_empty none = refl
left_empty (some x) = refl

pub both_empty : (a : Option (List Fields)) → both a (some []) ≡ a
both_empty none = refl
both_empty (some x) = ap some (append-nil x)

-- What the stack still holds, from its top.
abbrev pub pending : Items → Option (List Fields)
pending no_items = some []
pending (item x stack) = both (visit x) (pending stack)

pub push-pending :
    (xs stack : Items) → pending (push xs stack) ≡ both (visit_items xs) (pending stack)
unfolding visit
push-pending no_items stack = left_empty (pending stack)
push-pending (item x xs) stack =
    push-pending xs (item x stack) ∙ sym (both_assoc (visit_items xs) (visit x) (pending stack))

pub push-passes :
    (xs stack : Items) → passes_items (push xs stack) ≡ passes_items xs + passes_items stack
unfolding passes
push-passes no_items stack = omega arith
push-passes (item x xs) stack = omega (arith, push-passes xs (item x stack))

characters-quiet :
    (s : String)
    → (visit_items (characters s) ≡ some []) × (passes_items (characters s) ≡ text_length s)
unfolding visit passes text_length
characters-quiet String.[] = (refl, refl)
characters-quiet (String.◌∷◌ c s) = let h = characters-quiet s in (rw h.0 refl, omega (arith, h.1))

field_names-quiet :
    (fs : Fields)
    → (visit_items (field_names fs) ≡ some []) × (passes_items (field_names fs) ≡ field_count fs)
unfolding visit passes
field_names-quiet no_fields = (refl, refl)
field_names-quiet (field k v fs) = let h = field_names-quiet fs in (rw h.0 refl, omega (arith, h.1))

-- What a walked value nests, and the passes for it.
abbrev pub visit_all : Option Items → Option (List Fields)
visit_all none = none
visit_all (some xs) = visit_items xs

abbrev pub passes_all : Option Items → ℕ
passes_all none = 0
passes_all (some xs) = passes_items xs

value-iterated :
    (v : Json)
    → (visit_value v ≡ visit_all (iterated v)) × (passes_value v ≡ passes_all (iterated v))
unfolding visit passes iterated
value-iterated null = (refl, refl)
value-iterated (boolean true) = (refl, refl)
value-iterated (boolean false) = (refl, refl)
value-iterated (number w true) = (refl, refl)
value-iterated (number w false) = (refl, refl)
value-iterated (string w) = let h = characters-quiet w in (sym h.0, sym h.1)
value-iterated (array xs) = (refl, refl)
value-iterated (object fs) = let h = field_names-quiet fs in (sym h.0, sym h.1)

pub nested-iterated :
    (fs : Fields)
    → (visit_nested fs ≡ visit_all (iterated (get "components" fs)))
      × (passes_nested fs ≡ passes_all (iterated (get "components" fs)))
unfolding visit passes get
nested-iterated no_fields = value-iterated null
nested-iterated (field k v fs) = elim (Bool-cases (k == "components")) [
  | inl e ↦ rw e (value-iterated v)
  | inr e ↦ rw e (nested-iterated fs)
]
