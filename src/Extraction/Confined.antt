-- ===== src/Extraction/Confined.antt =====
-- The path that _ensure_safe_member gives stands below the target directory.
use mathlib.Core.List.{append_assoc, append-nil}
use el_sca_ansamble.Prelude.{
  String, ◌≡◌, ◌≢◌, refl, sym, true, false, List, [], ◌∷◌, ◌++◌, map, All, All-append, inl, inr,
  arith, Bool-cases,
}
use el_sca_ansamble.Prelude.Keys.{==_refl, nat_eq, string_eq}
use el_sca_ansamble.Extraction.Names.{PathParts, sanitize_component}
use el_sca_ansamble.Extraction.Paths.{
  parts, within, normpath, normpath_onto, is_under, placed, is_unsafe, ensure_safe_member,
  posix_name,
}
use el_sca_ansamble.Extraction.Components.{IsPlain, Free, parts-Free, sanitize_component-All}

-- A path of plain components is its own normal form.
normpath_onto-plain : (done ps : List String) → All IsPlain ps → normpath_onto done ps ≡ done ++ ps
unfolding normpath_onto IsPlain
normpath_onto-plain done [] h = sym (append-nil done)
normpath_onto-plain done (p ∷ ps) h =
    ground (arith, normpath_onto-plain (done ++ p ∷ []) ps h.1, append_assoc done (p ∷ []) ps)

is_under-append : (dir rest : PathParts) → is_under dir (dir ++ rest) ≡ true
unfolding is_under
is_under-append [] rest = refl
is_under-append (p ∷ ps) rest = rw (==_refl p, is_under-append ps rest) refl

-- A path below a directory: at least one component follows the directory's own, and each of those
-- is plain.
unfoldable pub Inside : PathParts → PathParts → Type 0
Inside dir p = (rest : PathParts) × (p ≡ dir ++ rest) × (rest ≢ []) × All IsPlain rest

normpath-plain : (ps : List String) → All IsPlain ps → normpath ps ≡ ps
normpath-plain ps h = normpath_onto-plain [] ps h

within-append :
    (name : String) (dir ps : PathParts)
    → All IsPlain dir
    → All IsPlain ps
    → within name (normpath dir) (normpath (dir ++ ps)) ≡ inr (dir ++ ps)
within-append name dir ps h k =
    rw
      (
        normpath-plain dir h,
        normpath-plain (dir ++ ps) (All-append IsPlain dir ps h k),
        is_under-append dir ps,
      )
      refl

placed-Inside :
    (dir : PathParts) (name : String) (ps : List String) (p : PathParts)
    → All IsPlain dir
    → All Free ps
    → placed dir name ps ≡ inr p
    → Inside dir p
unfolding Inside
placed-Inside dir name [] p h f e = absurd (ground arith)
placed-Inside dir name (q ∷ qs) p h f e =
    let k = sanitize_component-All (q ∷ qs) f in
    let e' = within-append name dir (map sanitize_component (q ∷ qs)) h k in
    (map sanitize_component (q ∷ qs), ground arith, λ ne. ground arith, k)

pub ensure_safe_member-Inside :
    (dir : PathParts) (name : String) (p : PathParts)
    → All IsPlain dir
    → ensure_safe_member dir name ≡ inr p
    → (is_unsafe (posix_name name) ≡ false) × Inside dir p
unfolding ensure_safe_member
ensure_safe_member-Inside dir name p h e = elim (Bool-cases (is_unsafe (posix_name name))) [
  | inl u ↦ absurd (ground arith)
  | inr u ↦ (
    u,
    placed-Inside dir name (parts (posix_name name)) p h (parts-Free (posix_name name))
        (ground arith),
  )
]
