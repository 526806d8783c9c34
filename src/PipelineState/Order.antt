-- ===== src/PipelineState/Order.antt =====
-- resilient_updates/pipeline_state.py, _write_state: lemmas on the order of the stages in the file.
use el_sca_ansamble.Prelude.{
  String, Bool, false, ◌≡◌, refl, ap, ◌∙◌, List, [], ◌∷◌, ◌||◌, arith, Bool-cases, inl, inr,
}
use el_sca_ansamble.Prelude.Keys.{◌==◌, string_eq, ==_iff, contains, keys, Distinct}
use el_sca_ansamble.Prelude.Sort.{insert_sorted, sort}
use el_sca_ansamble.PipelineState.State.{Platform, Info}
use el_sca_ansamble.PipelineState.Stages.{done_names}

module _ (p : Platform) (lt : String × Info p → String × Info p → Bool) where
  abbrev Stage : Type 0
  Stage = String × Info p

  contains-keys-insert_sorted :
      (k : String) (a : Stage) (d : List Stage)
      → contains k (keys (insert_sorted lt a d)) ≡ (k == a.0 || contains k (keys d))
  unfolding insert_sorted contains
  contains-keys-insert_sorted k a [] = refl
  contains-keys-insert_sorted k a (x ∷ d) = elim (Bool-cases (lt x a)) [
    | inl e ↦ rw e (ground (arith, contains-keys-insert_sorted k a d))
    | inr e ↦ rw e refl
  ]

  contains-keys-sort :
      (k : String) (d : List Stage) → contains k (keys (sort lt d)) ≡ contains k (keys d)
  unfolding sort contains
  contains-keys-sort k [] = refl
  contains-keys-sort k (x ∷ d) =
      contains-keys-insert_sorted k x (sort lt d) ∙ ap (λ b. k == x.0 || b) (contains-keys-sort k d)

  insert_sorted-Distinct :
      (a : Stage) (d : List Stage)
      → contains a.0 (keys d) ≡ false
      → Distinct d
      → Distinct (insert_sorted lt a d)
  unfolding insert_sorted contains
  insert_sorted-Distinct a [] h k = (refl, tt)
  insert_sorted-Distinct a (x ∷ d) h k = elim (Bool-cases (lt x a)) [
    | inl e ↦ rw e (
      ground (arith, contains-keys-insert_sorted x.0 a d, ==_iff x.0 a.0, ==_iff a.0 x.0),
      insert_sorted-Distinct a d (ground arith) k.1,
    )
    | inr e ↦ rw e (h, k)
  ]

  pub sort-Distinct : (d : List Stage) → Distinct d → Distinct (sort lt d)
  unfolding sort
  sort-Distinct [] h = tt
  sort-Distinct (x ∷ d) h =
      insert_sorted-Distinct x (sort lt d) (contains-keys-sort x.0 d ∙ h.0) (sort-Distinct d h.1)

  contains-done_names-insert_sorted :
      (s : String) (a : Stage) (d : List Stage)
      → contains s (done_names p (insert_sorted lt a d)) ≡ contains s (done_names p (a ∷ d))
  unfolding insert_sorted contains
  contains-done_names-insert_sorted s a [] = refl
  contains-done_names-insert_sorted s a (x ∷ d) = elim (Bool-cases (lt x a)) [
    | inl e ↦ rw e (ground (arith, contains-done_names-insert_sorted s a d))
    | inr e ↦ rw e refl
  ]

  pub contains-done_names-sort :
      (s : String) (d : List Stage)
      → contains s (done_names p (sort lt d)) ≡ contains s (done_names p d)
  unfolding sort contains
  contains-done_names-sort s [] = refl
  contains-done_names-sort s (x ∷ d) =
      contains-done_names-insert_sorted s x (sort lt d)
      ∙ ground (arith, contains-done_names-sort s d)
