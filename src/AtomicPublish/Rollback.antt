-- ===== src/AtomicPublish/Rollback.antt =====
-- resilient_updates/atomic_publish.py, the promotion and its rollback: lemmas on a whole publish_directory.
use el_sca_ansamble.Prelude.{
  String, ◌≡◌, ◌⊎◌, refl, ap, ◌∙◌, Bool, true, not, ◌&&◌, Option, some, none, [], ◌∷◌, Bool-cases,
  inl, inr,
}
use el_sca_ansamble.Prelude.Keys.{==_refl}
use el_sca_ansamble.AtomicPublish.Disk.{
  FilePath, path_eq, fine, breaks, rename_with, Outcome, returned, raised, raised_exdev, Files,
  World, exists, rename, rmtree,
}
use el_sca_ansamble.AtomicPublish.Publish.{
  replaced, replace_tree, roll_back, promoted, promote, archive, cleared, publish_directory,
}
use el_sca_ansamble.AtomicPublish.Moves.{Moved, rmtree-others}
use el_sca_ansamble.AtomicPublish.Replacement.{
  IsLayout, Kept, replace_tree-Moved, replace_tree-others,
}

module _ {A : Type 0} (pid time : String) where
  module _ (temp active previous : FilePath) (layout : IsLayout pid time temp active previous) where
    Kept-of_move :
        (o : Outcome) (fresh old : Option A) (before after : Files A)
        → before previous ≡ old
        → Moved o previous active before after
        → (after active ≡ old) ⊎ (after previous ≡ old)
    unfolding Moved
    Kept-of_move returned fresh old before after h m = inl (m ∙ h)
    Kept-of_move raised fresh old before after h m = inr (m.0 ∙ h)
    Kept-of_move raised_exdev fresh old before after h m = inr (m.0 ∙ h)

    roll_back-Kept :
        (moved : Bool) (old : Option A) (w : World A)
        → w.0 previous ≡ old
        → let files = (roll_back pid time moved active previous w).0 in
          (files active ≡ old) ⊎ (files previous ≡ old)
    unfolding roll_back
    roll_back-Kept moved old w h =
        elim (Bool-cases (moved && (not (exists (w.0 active)) && exists (w.0 previous)))) [
          | inl e ↦ rw e (
              Kept-of_move (replace_tree pid time previous active w).0 old old w.0 _ h (
                replace_tree-Moved pid time previous active w layout.previous_active
                  layout.active_previous layout.active_off_previous layout.active_off_active))
          | inr e ↦ rw e (inr h)
        ]

    promoted-Kept :
        (o : Outcome) (moved : Bool) (fresh old : Option A) (before : Files A) (w : World A)
        → before temp ≡ fresh
        → w.0 previous ≡ old
        → Moved o temp active before w.0
        → let r = promoted pid time o moved active previous w in
          Kept r.0 fresh old active previous r.1.0
    unfolding promoted Kept Moved
    promoted-Kept returned moved fresh old before w f h m = (m ∙ f, h)
    promoted-Kept raised moved fresh old before w f h m = roll_back-Kept moved old w h
    promoted-Kept raised_exdev moved fresh old before w f h m = roll_back-Kept moved old w h

    promote-Kept :
        (o : Outcome) (fresh old : Option A) (before : Files A) (w : World A)
        → before active ≡ old
        → w.0 temp ≡ fresh
        → Moved o active previous before w.0
        → let r = promote pid time o true temp active previous w in
          Kept r.0 fresh old active previous r.1.0
    unfolding promote Kept Moved roll_back
    promote-Kept returned fresh old before w h f m =
        let r = replace_tree pid time temp active w in
        promoted-Kept r.0 true fresh old w.0 r.1 f
          (replace_tree-others pid time temp active previous w layout.temp_previous
              layout.active_previous layout.active_off_previous
            ∙ (m ∙ h))
          (replace_tree-Moved pid time temp active w layout.temp_active layout.active_temp
            layout.active_off_temp layout.active_off_active)
    promote-Kept raised fresh old before w h f m = inl (m.0 ∙ h)
    promote-Kept raised_exdev fresh old before w h f m = inl (m.0 ∙ h)

    archive-Kept :
        (old : A) (fresh : Option A) (w : World A)
        → w.0 active ≡ some old
        → w.0 temp ≡ fresh
        → let r = archive pid time temp active previous w in
          Kept r.0 fresh (some old) active previous r.1.0
    unfolding archive
    archive-Kept old fresh w h f =
        let r = replace_tree pid time active previous w in
        rw (ap exists h) (
          promote-Kept r.0 fresh (some old) w.0 r.1 h
            (replace_tree-others pid time active previous temp w layout.active_temp
                layout.previous_temp layout.previous_off_temp
              ∙ f)
            (replace_tree-Moved pid time active previous w layout.active_previous
              layout.previous_active layout.previous_off_active layout.previous_off_previous))

    cleared-Kept :
        (o : Outcome) (old : A) (fresh : Option A) (w : World A)
        → w.0 active ≡ some old
        → w.0 temp ≡ fresh
        → let r = cleared pid time o temp active previous w in
          Kept r.0 fresh (some old) active previous r.1.0
    unfolding cleared Kept
    cleared-Kept returned old fresh w h f = archive-Kept old fresh w h f
    cleared-Kept raised old fresh w h f = inl h
    cleared-Kept raised_exdev old fresh w h f = inl h

-- Whatever faults the system calls meet, the rollback's own included: when the call returns, the
-- tree that stood in the temporary directory is the active one and the old active tree is the
-- previous one; when it raises, the old active tree is whole in the active or in the previous
-- place. The three directories and the staging directories of the last two are different paths.
pub publish_directory-Kept :
    {A : Type 0} (pid time : String) (temp active previous : FilePath)
    → IsLayout pid time temp active previous
    → (old : A) (w : World A) → w.0 active ≡ some old
    → let r = publish_directory pid time temp active previous w in
      Kept r.0 (w.0 temp) (some old) active previous r.1.0
unfolding publish_directory
publish_directory-Kept pid time temp active previous layout old w h =
    elim (Bool-cases (exists (w.0 previous))) [
      | inl e ↦
          let r = rmtree previous w in
          rw e (
            cleared-Kept pid time temp active previous layout r.0 old (w.0 temp) r.1
              (rmtree-others previous active w layout.previous_active ∙ h)
              (rmtree-others previous temp w layout.previous_temp))
      | inr e ↦ rw e (archive-Kept pid time temp active previous layout old (w.0 temp) w h refl)
    ]

-- When there is no previous tree, the activation's rename fails and no other system call does, the
-- call raises with the old tree back in the active place.
pub publish_directory-restores :
    {A : Type 0} (pid time : String) (temp active previous : FilePath)
    → IsLayout pid time temp active previous
    → (old : A) (remnant : Option A) (files : Files A) → files active ≡ some old
    → files previous ≡ none
    → let r = publish_directory pid time temp active previous (files, fine ∷ breaks remnant ∷ []) in
      (r.0 ≡ raised) × (r.1.0 active ≡ some old)
unfolding publish_directory archive replace_tree rename rename_with replaced promote promoted
    roll_back
publish_directory-restores pid time temp active previous layout old remnant files h k =
    rw (k, h, ==_refl active, ==_refl previous, layout.active_previous, layout.previous_active)
      (refl, rw (==_refl active) refl)
