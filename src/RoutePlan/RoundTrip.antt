-- ===== src/RoutePlan/RoundTrip.antt =====
-- What load_env_file reads in a file that render_env wrote.
use Prim.Native.Char.{Char, code}
use Prim.Native.String.{◌++◌ as str_append}
use text.Mathlib.TextLemmas.{nil-append, cons-append, append_assoc}
use el_sca_ansamble.Prelude.{
  String, ◌≡◌, ◌≢◌, refl, ap, ◌∙◌, Bool, true, false, not, ◌&&◌, some, List, [], ◌∷◌, map, All,
  arith,
}
use el_sca_ansamble.Prelude.Keys.{◌==◌, nat_eq, string_eq, insert}
use el_sca_ansamble.Prelude.Text.{join, strip, strip_left, strip_right, is_space, unless_blank}
use el_sca_ansamble.RoutePlan.Env.{
  Plan, Assignments, assignments, line_of, render_env, is_break, split_lines, partition, is_skipped,
  load_line, load_lines, load_env_file,
}

-- No end of a line stands in the text.
abbrev pub one_line : String → Bool
one_line String.[] = true
one_line (String.◌∷◌ c s) = not (is_break (code c)) && one_line s

-- A name: no white space, no end of a line, no equals sign, no number sign.
abbrev pub is_name : String → Bool
is_name String.[] = true
is_name (String.◌∷◌ c s) =
    not (is_space (code c))
    && not (is_break (code c))
    && not (code c == b'=')
    && not (code c == b'#')
    && is_name s

split_lines-line :
    (w rest : String)
    → one_line w ≡ true
    → split_lines (str_append w (String.◌∷◌ "\n" rest)) ≡ w ∷ split_lines rest
unfolding split_lines
split_lines-line String.[] rest h = ap split_lines (nil-append (String.◌∷◌ "\n" rest))
split_lines-line (String.◌∷◌ c w) rest h =
    let e : is_break (code c) ≡ false = ground arith in
    rw (cons-append c w (String.◌∷◌ "\n" rest), e, split_lines-line w rest (ground arith)) refl

newline-append : (t : String) → str_append "\n" t ≡ String.◌∷◌ "\n" t
newline-append t = cons-append "\n" "" t ∙ ap (λ z. String.◌∷◌ "\n" z) (nil-append t)

-- The last line ends too.
split_lines-join :
    (w : String) (ws : List String)
    → All (λ v. one_line v ≡ true) (w ∷ ws)
    → split_lines (str_append (join "\n" (w ∷ ws)) "\n") ≡ w ∷ ws
unfolding join split_lines
split_lines-join w [] h = split_lines-line w "" h.0
split_lines-join w (v ∷ vs) h =
    ap split_lines (
      append_assoc w (str_append "\n" (join "\n" (v ∷ vs))) "\n"
      ∙ ap (str_append w) (
          ap (λ z. str_append z "\n") (newline-append (join "\n" (v ∷ vs)))
          ∙ cons-append "\n" (join "\n" (v ∷ vs)) "\n"))
    ∙ split_lines-line w (str_append (join "\n" (v ∷ vs)) "\n") h.0
    ∙ ap (λ z. w ∷ z) (split_lines-join v vs h.1)

abbrev equals : String → String → String
equals k v = str_append k (String.◌∷◌ "=" v)

unless_blank-cons :
    (c : Char) (s : String) → is_space (code c) ≡ false → unless_blank c s ≡ String.◌∷◌ c s
unless_blank-cons c String.[] h = rw h refl
unless_blank-cons c (String.◌∷◌ d s) h = refl

unless_blank-equals :
    (c : Char) (k v : String) → unless_blank c (equals k v) ≡ String.◌∷◌ c (equals k v)
unless_blank-equals c String.[] v = rw (nil-append (String.◌∷◌ "=" v)) refl
unless_blank-equals c (String.◌∷◌ d k) v = rw (cons-append d k (String.◌∷◌ "=" v)) refl

strip_right-equals : (k v : String) → strip_right v ≡ v → strip_right (equals k v) ≡ equals k v
unfolding strip_right
strip_right-equals String.[] v h =
    rw (nil-append (String.◌∷◌ "=" v), h) (unless_blank-cons "=" v is_space-equals)
  where
    is_space-equals : is_space (code "=") ≡ false
    is_space-equals = refl
strip_right-equals (String.◌∷◌ c k) v h =
    rw (cons-append c k (String.◌∷◌ "=" v), strip_right-equals k v h) (unless_blank-equals c k v)

strip-is_name : (k : String) → is_name k ≡ true → strip k ≡ k
unfolding strip
strip-is_name k h = ap strip_left (right k h) ∙ left k h
  where
    right : (k : String) → is_name k ≡ true → strip_right k ≡ k
    right String.[] h = refl
    right (String.◌∷◌ c k) h =
        let e : is_space (code c) ≡ false = ground arith in
        rw (right k (ground arith)) (unless_blank-cons c k e)

    left : (k : String) → is_name k ≡ true → strip_left k ≡ k
    left String.[] h = refl
    left (String.◌∷◌ c k) h = let e : is_space (code c) ≡ false = ground arith in rw e refl

partition-equals : (k v : String) → is_name k ≡ true → partition (equals k v) ≡ some (k, v)
unfolding partition
partition-equals String.[] v h = rw (nil-append (String.◌∷◌ "=" v)) refl
partition-equals (String.◌∷◌ c k) v h =
    let e : (code c == b'=') ≡ false = ground arith in
    rw (cons-append c k (String.◌∷◌ "=" v), e, partition-equals k v (ground arith)) refl

-- A value as the loader leaves it: on one line, with no white space at its ends.
unfoldable pub IsTrimmed : String → Type 0
IsTrimmed v = (strip_left v ≡ v) × (strip_right v ≡ v) × (one_line v ≡ true)

-- An assignment that a line can carry.
unfoldable pub IsPlainPair : String × String → Type 0
IsPlainPair (k, v) = (is_name k ≡ true) × (k ≢ "") × IsTrimmed v

strip-equals :
    (c : Char) (k v : String)
    → is_name (String.◌∷◌ c k) ≡ true
    → strip_right v ≡ v
    → strip (equals (String.◌∷◌ c k) v) ≡ equals (String.◌∷◌ c k) v
unfolding strip
strip-equals c k v h t =
    let e : is_space (code c) ≡ false = ground arith in
    ap strip_left (strip_right-equals (String.◌∷◌ c k) v t)
    ∙ rw (cons-append c k (String.◌∷◌ "=" v), e) refl

trimmed_right : (v : String) → IsTrimmed v → strip_right v ≡ v
unfolding IsTrimmed
trimmed_right v h = h.1

strip-IsTrimmed : (v : String) → IsTrimmed v → strip v ≡ v
unfolding strip IsTrimmed
strip-IsTrimmed v h = ap strip_left h.1 ∙ h.0

skipped-equals :
    (c : Char) (k v : String)
    → is_name (String.◌∷◌ c k) ≡ true
    → is_skipped (equals (String.◌∷◌ c k) v) ≡ false
skipped-equals c k v h = rw (cons-append c k (String.◌∷◌ "=" v)) (ground arith)

load_line-equals :
    (k v : String) (out : Assignments)
    → IsPlainPair (k, v)
    → load_line (equals k v) out ≡ insert k v out
unfolding load_line IsPlainPair
load_line-equals String.[] v out h = absurd (h.1 refl)
load_line-equals (String.◌∷◌ c k) v out h =
    let key = String.◌∷◌ c k in
    rw
      (
        strip-equals c k v h.0 (trimmed_right v h.2),
        skipped-equals c k v h.0,
        partition-equals key v h.0,
        strip-is_name key h.0,
        strip-IsTrimmed v h.2,
      )
      refl

-- A comment line changes nothing.
load_line-comment : (t : String) (out : Assignments) → load_line (String.◌∷◌ "#" t) out ≡ out
unfolding load_line strip
load_line-comment t out = rw (unless_blank-cons "#" (strip_right t) refl) refl

unfoldable pub insert_all : Assignments → Assignments → Assignments
insert_all [] out = out
insert_all ((k, v) ∷ rest) out = insert_all rest (insert k v out)

load_lines-equals :
    (ps : Assignments) (out : Assignments)
    → All IsPlainPair ps
    → load_lines (map line_of ps) out ≡ insert_all ps out
unfolding load_lines insert_all
load_lines-equals [] out h = refl
load_lines-equals ((k, v) ∷ ps) out h =
    ap (load_lines (map line_of ps)) (load_line-equals k v out h.0)
    ∙ load_lines-equals ps (insert k v out) h.1

one_line-append : (s t : String) → one_line (str_append s t) ≡ (one_line s && one_line t)
one_line-append String.[] t = ap one_line (nil-append t)
one_line-append (String.◌∷◌ c s) t = rw (cons-append c s t) (ground (arith, one_line-append s t))

is_name-one_line : (k : String) → is_name k ≡ true → one_line k ≡ true
is_name-one_line String.[] h = refl
is_name-one_line (String.◌∷◌ c k) h = ground (arith, is_name-one_line k)

IsPlainPair-one_line : (k v : String) → IsPlainPair (k, v) → one_line (equals k v) ≡ true
unfolding IsPlainPair IsTrimmed
IsPlainPair-one_line k v h =
    one_line-append k (String.◌∷◌ "=" v) ∙ ground (arith, is_name-one_line k h.0, h.2.2)

lines-one_line :
    (ps : Assignments) → All IsPlainPair ps → All (λ w. one_line w ≡ true) (map line_of ps)
lines-one_line [] h = tt
lines-one_line ((k, v) ∷ ps) h = (IsPlainPair-one_line k v h.0, lines-one_line ps h.1)

-- Loading the file that was written for a plan gives the variables of the plan, each with the value
-- it was written with, where the names and the values can stand on a line: names without white
-- space, "=" and "#", values without white space at their ends, and no end of a line in either or
-- in the time.
pub load_env_file-render_env :
    (scheme : String → String) (plan : Plan)
    → one_line plan.generated_utc ≡ true
    → All IsPlainPair (assignments scheme plan)
    → load_env_file (some (render_env scheme plan)) ≡ insert_all (assignments scheme plan) []
unfolding load_env_file render_env load_lines
load_env_file-render_env scheme plan g h =
    ap (λ ws. load_lines ws [])
      (split_lines-join _ _
        (refl, (one_line-append "# generated_utc=" plan.generated_utc ∙ g, lines-one_line _ h)))
    ∙ ap (load_lines (map line_of (assignments scheme plan))) (
        ap
          (λ w. load_line w (
            load_line
              "# Generated by `resilient_updates.cli route-plan`. Source this before updaters." []))
          (cons-append "#" " generated_utc=" plan.generated_utc)
        ∙ load_line-comment _ _
        ∙ load_line-comment
            " Generated by `resilient_updates.cli route-plan`. Source this before updaters." [])
    ∙ load_lines-equals (assignments scheme plan) [] h
