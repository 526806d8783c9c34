-- ===== src/SourcePolicy/Order.antt =====
-- `SourceCandidate` and the order that `@dataclass(order=True)` gives it: field by field.
use text.Mathlib.Text.{is_lt}
use Prim.Native.String.{compare}
use el_sca_ansamble.Prelude.{
  ◌≡◌, ◌⊎◌, inl, inr, String, Bool, true, false, Option, none, some, arith, if◌then◌else◌, not,
  ◌&&◌, ◌||◌, any, List, [], ◌∷◌,
}
use el_sca_ansamble.Prelude.Keys.{◌==◌, string_eq}
use el_sca_ansamble.Prelude.Int.{ℤ, ltb_ℤ, ◌≤ℤ◌}

pub record SourceCandidate : Type 0 where
  pub priority : ℤ
  pub name : String
  pub url : String
  pub tool : String
  pub layer : String
  pub enabled : Bool
  pub auth_env : Option String
  pub trust_level : String
  pub notes : String

str_less : String → String → Bool
str_less a b = is_lt (compare a b)

bool_less : Bool → Bool → Bool
bool_less false true = true
bool_less _ _ = false

-- The comparison of `None` with a text, which Python refuses: see `clash` below.
env_less : Option String → Option String → Bool
unfolding str_less
env_less none none = false
env_less none (some _) = true
env_less (some _) none = false
env_less (some a) (some b) = str_less a b

-- One field of a tuple comparison: less, greater, or on to the fields that follow.
abbrev then_by : Bool → Bool → Bool → Bool
then_by less greater rest = if less then true else if greater then false else rest

-- The comparison of the fields that follow `priority`.
rest_less : SourceCandidate → SourceCandidate → Bool
unfolding str_less bool_less env_less
rest_less a b = then_by (str_less a.name b.name) (str_less b.name a.name) (
    then_by (str_less a.url b.url) (str_less b.url a.url) (
      then_by (str_less a.tool b.tool) (str_less b.tool a.tool) (
        then_by (str_less a.layer b.layer) (str_less b.layer a.layer) (
          then_by (bool_less a.enabled b.enabled) (bool_less b.enabled a.enabled) (
            then_by (env_less a.auth_env b.auth_env) (env_less b.auth_env a.auth_env) (
              then_by (str_less a.trust_level b.trust_level) (str_less b.trust_level a.trust_level)
                (str_less a.notes b.notes)))))))

-- `a < b`, as the comparison of the tuples of the fields
unfoldable pub source_less : SourceCandidate → SourceCandidate → Bool
unfolding rest_less
source_less a b =
    then_by (ltb_ℤ a.priority b.priority) (ltb_ℤ b.priority a.priority) (rest_less a b)

abbrev same_bool : Bool → Bool → Bool
same_bool a b = not (bool_less a b) && not (bool_less b a)

abbrev one_absent : Option String → Option String → Bool
one_absent none (some _) = true
one_absent (some _) none = true
one_absent _ _ = false

-- `a < b` is a TypeError: the fields before `auth_env` agree, and one of the two is `None`.
unfoldable pub clash : SourceCandidate → SourceCandidate → Bool
unfolding bool_less
clash a b =
    not (ltb_ℤ a.priority b.priority)
    && not (ltb_ℤ b.priority a.priority)
    && a.name == b.name
    && a.url == b.url
    && a.tool == b.tool
    && a.layer == b.layer
    && same_bool a.enabled b.enabled
    && one_absent a.auth_env b.auth_env

-- `sorted` raises for a list with such a pair: no sequence of comparisons that leaves such pairs out
-- tells in which order the candidates that agree up to `auth_env` are to stand.
unfoldable pub clashing : List SourceCandidate → Bool
unfolding clash
clashing [] = false
clashing (s ∷ ss) = any (clash s) ss || clashing ss

-- A smaller priority number comes first.
abbrev pub NoLater : SourceCandidate → SourceCandidate → Type 0
NoLater a b = a.priority ≤ℤ b.priority

then_by-true : (l g r : Bool) → then_by l g r ≡ true → (l ≡ true) ⊎ (g ≡ false)
then_by-true l g r h = ground arith

then_by-false : (l g r : Bool) → then_by l g r ≡ false → l ≡ false
then_by-false l g r h = ground arith

not_later : (a b : ℤ) → (ltb_ℤ a b ≡ true) ⊎ (ltb_ℤ b a ≡ false) → a ≤ℤ b
not_later a b (inl h) = ground arith
not_later a b (inr h) = ground arith

pub NoLater-of_less : (a b : SourceCandidate) → source_less a b ≡ true → NoLater a b
unfolding source_less
NoLater-of_less a b h =
    not_later a.priority b.priority
      (then_by-true (ltb_ℤ a.priority b.priority) (ltb_ℤ b.priority a.priority) (rest_less a b) h)

pub NoLater-of_not_less : (a b : SourceCandidate) → source_less a b ≡ false → NoLater b a
unfolding source_less
NoLater-of_not_less a b h = not_later b.priority a.priority (
    inr
      (then_by-false (ltb_ℤ a.priority b.priority) (ltb_ℤ b.priority a.priority) (rest_less a b) h))

pub NoLater-trans : (a b c : SourceCandidate) → NoLater a b → NoLater b c → NoLater a c
NoLater-trans a b c h k = omega arith
