-- ===== src/Sbom/Json.antt =====
-- The values that the JSON library gives, and Python's use of them. The keys of an object are
-- distinct. A number carries what `str` shows of it and whether it is other than zero.
use el_sca_ansamble.Prelude.{String, Bool, true, false, Option, none, some, if◌then◌else◌}
use el_sca_ansamble.Prelude.Keys.{◌==◌, string_eq}

mutual
  pub data Json : Type 0 where
    null : Json
    boolean : Bool → Json
    number : String → Bool → Json
    string : String → Json
    array : Items → Json
    object : Fields → Json

  pub data Items : Type 0 where
    no_items : Items
    item : Json → Items → Items

  pub data Fields : Type 0 where
    no_fields : Fields
    field : String → Json → Fields → Fields

-- `d.get(key)`; Python gives `None` for an absent key.
unfoldable pub get : String → Fields → Json
get key no_fields = null
get key (field k v fs) = if k == key then v else get key fs

-- `bool(v)`
abbrev pub truthy : Json → Bool
truthy null = false
truthy (boolean b) = b
truthy (number shown nonzero) = nonzero
truthy (string String.[]) = false
truthy (string (String.◌∷◌ c s)) = true
truthy (array no_items) = false
truthy (array (item x xs)) = true
truthy (object no_fields) = false
truthy (object (field k v fs)) = true

abbrev pub characters : String → Items
characters String.[] = no_items
characters (String.◌∷◌ c s) = item (string (String.◌∷◌ c "")) (characters s)

abbrev pub field_names : Fields → Items
field_names no_fields = no_items
field_names (field k v fs) = item (string k) (field_names fs)

-- What a loop over `v or []` walks over; `none` where Python raises a TypeError.
unfoldable pub iterated : Json → Option Items
iterated null = some no_items
iterated (boolean b) = if b then none else some no_items
iterated (number shown nonzero) = if nonzero then none else some no_items
iterated (string s) = some (characters s)
iterated (array xs) = some xs
iterated (object fs) = some (field_names fs)
