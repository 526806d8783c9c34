-- ===== src/Extraction/Target.antt =====
-- The target directory that an archive is given stands below the output root.
use Prim.Native.Nat.{◌/◌, ◌%◌}
use Prim.Native.Char.{Char, code, nul}
use Prim.Native.String.{◌++◌ as str_append}
use text.Mathlib.TextLemmas.{nil-append}
use el_sca_ansamble.Prelude.{
  ℕ, zero, suc, String, ◌≡◌, refl, ap, ◌∙◌, Bool, true, ◌&&◌, [], ◌∷◌, All, All-append, arith,
}
use el_sca_ansamble.Prelude.Keys.{◌==◌, nat_eq, string_eq, list_eq}
use el_sca_ansamble.Prelude.Text.{decimal, digits_onto, pick, join}
use el_sca_ansamble.Extraction.Names.{PathParts}
use el_sca_ansamble.Extraction.Components.{
  IsPlain, all_in, no_slash, append-all_in, named-IsPlain, safe_name-IsPlain,
}
use el_sca_ansamble.Extraction.Containment.{Contained}
use el_sca_ansamble.Extraction.Queue.{target_for}

pick-all_in :
    (q : ℕ → Bool) (s : String) (n : ℕ) (d : Char)
    → all_in q s ≡ true
    → q (code d) ≡ true
    → q (code (pick s n d)) ≡ true
unfolding pick
pick-all_in q String.[] n d h k = k
pick-all_in q (String.◌∷◌ c s) zero d h k = ground arith
pick-all_in q (String.◌∷◌ c s) (suc n) d h k = pick-all_in q s n d (ground arith) k

digits_onto-all_in :
    (fuel n : ℕ) (acc : String)
    → all_in no_slash acc ≡ true
    → all_in no_slash (digits_onto fuel n acc) ≡ true
unfolding digits_onto
digits_onto-all_in zero n acc h = h
digits_onto-all_in (suc fuel) n acc h =
    let k = pick-all_in no_slash "0123456789" (n % 10) nul refl refl in
    let h' : all_in no_slash (String.◌∷◌ (pick "0123456789" (n % 10) nul) acc) ≡ true =
      rw (k, h) refl in
    elim (n / 10)
      as (λ x.
        all_in no_slash (elim x [
          | zero ↦ String.◌∷◌ (pick "0123456789" (n % 10) nul) acc
          | suc q ↦ digits_onto fuel (suc q) (String.◌∷◌ (pick "0123456789" (n % 10) nul) acc)
        ])
        ≡ true) [ zero ↦ h' | suc q ↦ digits_onto-all_in fuel (suc q) _ h' ]

decimal-all_in : (n : ℕ) → all_in no_slash (decimal n) ≡ true
unfolding decimal
decimal-all_in n = digits_onto-all_in (suc n) n "" refl

abbrev is_dot : ℕ → Bool
is_dot c = c == b'.'

joined-all_in :
    (q : ℕ → Bool) (s t : String) → all_in q (join "" (s ∷ t ∷ [])) ≡ (all_in q s && all_in q t)
unfolding join
joined-all_in q s t =
    append-all_in q s (str_append "" t) ∙ ap (λ z. all_in q s && all_in q z) (nil-append t)

level-IsPlain : (d : ℕ) → IsPlain (join "" ("depth" ∷ decimal d ∷ []))
level-IsPlain d =
    named-IsPlain is_dot _ refl (joined-all_in is_dot "depth" (decimal d))
      (joined-all_in no_slash "depth" (decimal d) ∙ decimal-all_in d)

extracted-IsPlain : (w : String) → IsPlain w → IsPlain (join "" (w ∷ "_extracted" ∷ []))
unfolding IsPlain
extracted-IsPlain w h =
    named-IsPlain is_dot (join "" (w ∷ "_extracted" ∷ [])) refl
      (joined-all_in is_dot w "_extracted" ∙ ground arith)
      (joined-all_in no_slash w "_extracted" ∙ ground arith)

abbrev pub Names : PathParts → Type 0
Names ps = All IsPlain ps

-- The target directory of an archive stands below the output root.
pub target_for-plain :
    (destination : PathParts) (d : ℕ) (rel : String) (path : PathParts)
    → Names destination
    → Names (target_for destination d rel path)
unfolding target_for
target_for-plain destination d rel path h =
    All-append IsPlain destination _ h
      (level-IsPlain d, (safe_name-IsPlain rel, (extracted-IsPlain _ (safe_name-IsPlain _), tt)))

pub target_for-Contained :
    (destination : PathParts) (d : ℕ) (rel : String) (path : PathParts)
    → Contained destination (target_for destination d rel path)
unfolding target_for Contained
target_for-Contained destination d rel path = (
  _,
  refl,
  (level-IsPlain d, (safe_name-IsPlain rel, (extracted-IsPlain _ (safe_name-IsPlain _), tt))),
)
