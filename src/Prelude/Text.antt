-- ===== src/Prelude/Text.antt =====
-- Python's string methods that the program uses. Letter case is that of ASCII: other letters are
-- left as they are.
use Prim.Native.Nat.{◌/◌, ◌%◌}
use Prim.Native.Char.{Char, code, nul}
use Prim.Native.String.{◌++◌}
use text.Mathlib.Text.{starts_with, ◌==◌ as str_eq}
use el_sca_ansamble.Prelude.{
  ℕ, zero, suc, ◌-◌, String, Bool, true, false, ◌&&◌, ◌||◌, Option, none, some, List, leb,
  if◌then◌else◌, ◌≡◌, refl, ◌==◌,
}

unfoldable pub pick : String → ℕ → Char → Char
pick String.[] n d = d
pick (String.◌∷◌ c s) zero d = c
pick (String.◌∷◌ c s) (suc n) d = pick s n d

lower_char : Char → Char
unfolding pick
lower_char c =
    if leb b'A' (code c) && leb (code c) b'Z'
    then pick "abcdefghijklmnopqrstuvwxyz" (code c - b'A') c
    else c

upper_char : Char → Char
unfolding pick
upper_char c =
    if leb b'a' (code c) && leb (code c) b'z'
    then pick "ABCDEFGHIJKLMNOPQRSTUVWXYZ" (code c - b'a') c
    else c

-- `s.lower()`
unfoldable pub lower : String → String
unfolding lower_char
lower String.[] = ""
lower (String.◌∷◌ c s) = String.◌∷◌ (lower_char c) (lower s)

-- `s.upper()`
unfoldable pub upper : String → String
unfolding upper_char
upper String.[] = ""
upper (String.◌∷◌ c s) = String.◌∷◌ (upper_char c) (upper s)

-- `t in s`
unfoldable pub is_infix : String → String → Bool
is_infix t String.[] = starts_with "" t
is_infix t (String.◌∷◌ c s) = starts_with (String.◌∷◌ c s) t || is_infix t s

-- `s[: -len(t)]` where `s.endswith(t)`, and `none` where it does not end so
unfoldable pub remove_suffix : String → String → Option String
remove_suffix t String.[] = if str_eq "" t then some "" else none
remove_suffix t (String.◌∷◌ c s) =
    if str_eq (String.◌∷◌ c s) t
    then some ""
    else elim (remove_suffix t s) [ none ↦ none | some r ↦ some (String.◌∷◌ c r) ]

abbrev pub onto_head : Char → List String → List String
onto_head c List.[] = List.◌∷◌ (String.◌∷◌ c "") List.[]
onto_head c (List.◌∷◌ w ws) = List.◌∷◌ (String.◌∷◌ c w) ws

-- The pieces between the characters of a class, as `re.split` and `s.split` give them.
unfoldable pub split : (ℕ → Bool) → String → List String
split p String.[] = List.◌∷◌ "" List.[]
split p (String.◌∷◌ c s) =
    let rest = split p s in if p (code c) then List.◌∷◌ "" rest else onto_head c rest

-- `sep.join(words)`
unfoldable pub join : String → List String → String
join sep List.[] = ""
join sep (List.◌∷◌ w List.[]) = w
join sep (List.◌∷◌ w (List.◌∷◌ w' ws)) = w ++ sep ++ join sep (List.◌∷◌ w' ws)

-- `s` without the prefix `t`, where `s.startswith(t)`
unfoldable pub remove_prefix : String → String → Option String
remove_prefix String.[] s = some s
remove_prefix (String.◌∷◌ d t) String.[] = none
remove_prefix (String.◌∷◌ d t) (String.◌∷◌ c s) =
    let rest = remove_prefix t s in if code d == code c then rest else none

-- White space, as `str.strip` takes it: from tab to carriage return, the separators from 28 to 31, the
-- space, and the spaces of Unicode outside ASCII.
unfoldable pub is_space : ℕ → Bool
is_space c =
    leb 9 c && leb c 13
    || leb 28 c && leb c 32
    || c == 133
    || c == 160
    || c == 5760
    || leb 8192 c && leb c 8202
    || leb 8232 c && leb c 8233
    || c == 8239
    || c == 8287
    || c == 12288

unfoldable pub strip_left : String → String
strip_left String.[] = ""
strip_left (String.◌∷◌ c s) =
    let rest = strip_left s in if is_space (code c) then rest else String.◌∷◌ c s

abbrev pub unless_blank : Char → String → String
unless_blank c String.[] = if is_space (code c) then "" else String.◌∷◌ c ""
unless_blank c (String.◌∷◌ d s) = String.◌∷◌ c (String.◌∷◌ d s)

unfoldable pub strip_right : String → String
unfolding is_space
strip_right String.[] = ""
strip_right (String.◌∷◌ c s) = unless_blank c (strip_right s)

-- `s.strip()`
unfoldable pub strip : String → String
unfolding strip_left strip_right
strip s = strip_left (strip_right s)

-- The longest prefix of characters of a class, and what follows it.
unfoldable pub span : (ℕ → Bool) → String → String × String
span p String.[] = ("", "")
span p (String.◌∷◌ c s) =
    let (run, rest) = span p s in
    if p (code c) then (String.◌∷◌ c run, rest) else ("", String.◌∷◌ c s)

-- `str(n)`: the decimal digits before `acc`. A number has at most as many digits as its value plus
-- one, so that much fuel is enough.
unfoldable pub digits_onto : ℕ → ℕ → String → String
unfolding pick
digits_onto zero n acc = acc
digits_onto (suc fuel) n acc =
    let acc' = String.◌∷◌ (pick "0123456789" (n % 10) nul) acc in
    elim (n / 10) [ zero ↦ acc' | suc q ↦ digits_onto fuel (suc q) acc' ]

unfoldable pub decimal : ℕ → String
unfolding digits_onto
decimal n = digits_onto (suc n) n ""

decimal_503 : decimal 503 ≡ "503"
unfolding decimal
decimal_503 = refl

strip_name : strip " redhat 9.6  " ≡ "redhat 9.6"
unfolding strip
strip_name = refl

unfoldable pub text_length : String → ℕ
text_length String.[] = 0
text_length (String.◌∷◌ c s) = suc (text_length s)

-- `s.endswith(t)`
unfoldable pub ends_with : String → String → Bool
unfolding remove_suffix
ends_with s t = is_some (remove_suffix t s)
  where
    is_some : Option String → Bool
    is_some none = false
    is_some (some _) = true
