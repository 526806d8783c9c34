-- ===== src/AtomicPublish/Replacement.antt =====
-- resilient_updates/atomic_publish.py, _replace_tree: the paths it touches and where the trees end up.
use el_sca_ansamble.Prelude.{String, ◌≡◌, ◌⊎◌, refl, ◌∙◌, false, Option, Bool-cases, inl, inr}
use el_sca_ansamble.Prelude.Keys.{◌==◌}
use el_sca_ansamble.AtomicPublish.Disk.{
  FilePath, path_eq, Outcome, returned, raised, raised_exdev, Files, World, exists, rename,
  copytree, rmtree,
}
use el_sca_ansamble.AtomicPublish.Publish.{
  staging_path, fresh_staging_path, clear_staging, settle, activate, staged_copy, replaced,
  replace_tree,
}
use el_sca_ansamble.AtomicPublish.Moves.{
  Moved, Copied, rename-Moved, rename-others, rmtree-others, copytree-Copied, copytree-others,
}

-- A path is no staging directory of `dst`.
abbrev pub IsOff : String → String → FilePath → FilePath → Type 0
IsOff pid time dst p =
    ((staging_path pid dst == p) ≡ false) × ((fresh_staging_path pid time dst == p) ≡ false)

-- The three directories are different paths, and none is a staging directory of another.
pub record IsLayout (pid time : String) (temp active previous : FilePath) : Type 0 where
  pub temp_active : (temp == active) ≡ false
  pub active_temp : (active == temp) ≡ false
  pub temp_previous : (temp == previous) ≡ false
  pub previous_temp : (previous == temp) ≡ false
  pub active_previous : (active == previous) ≡ false
  pub previous_active : (previous == active) ≡ false
  pub previous_off_temp : IsOff pid time previous temp
  pub previous_off_active : IsOff pid time previous active
  pub previous_off_previous : IsOff pid time previous previous
  pub active_off_temp : IsOff pid time active temp
  pub active_off_active : IsOff pid time active active
  pub active_off_previous : IsOff pid time active previous

-- What a promotion leaves: on success the new tree is active and the old one archived; otherwise
-- the old tree is whole in one of the two places.
unfoldable pub Kept :
    {A : Type 0} → Outcome → Option A → Option A → FilePath → FilePath → Files A → Type 0
Kept returned fresh old active previous files = (files active ≡ fresh) × (files previous ≡ old)
Kept _ fresh old active previous files = (files active ≡ old) ⊎ (files previous ≡ old)

module _ {A : Type 0} (pid time : String) where
  clear_staging-off :
      (dst p : FilePath) (w : World A)
      → IsOff pid time dst p
      → ((clear_staging pid time dst w).0 == p) ≡ false
  unfolding clear_staging
  clear_staging-off dst p w h = elim (Bool-cases (exists (w.0 (staging_path pid dst)))) [
    | inl e ↦
        rw e
          (elim (Bool-cases
            (exists ((rmtree (staging_path pid dst) w).1.0 (staging_path pid dst)))) [
              | inl f ↦ rw f h.1
              | inr f ↦ rw f h.0
            ])
    | inr e ↦ rw e h.0
  ]

  clear_staging-others :
      (dst p : FilePath) (w : World A)
      → IsOff pid time dst p
      → (clear_staging pid time dst w).1.0 p ≡ w.0 p
  unfolding clear_staging
  clear_staging-others dst p w h = elim (Bool-cases (exists (w.0 (staging_path pid dst)))) [
    | inl e ↦ rw e (rmtree-others (staging_path pid dst) p w h.0)
    | inr e ↦ rw e refl
  ]

  settle-Moved :
      (o : Outcome) (src dst s : FilePath) (old : Files A) (w : World A)
      → (src == dst) ≡ false
      → (s == src) ≡ false
      → (s == dst) ≡ false
      → Moved o src dst old w.0
      → let r = settle pid time o src s w in Moved r.0 src dst old r.1.0
  unfolding settle Moved
  settle-Moved returned src dst s old w h k l m = rmtree-others src dst w h ∙ m
  settle-Moved raised src dst s old w h k l m =
      (rmtree-others s src w k ∙ m.0, rmtree-others s dst w l ∙ m.1)
  settle-Moved raised_exdev src dst s old w h k l m =
      (rmtree-others s src w k ∙ m.0, rmtree-others s dst w l ∙ m.1)

  -- The rename of the staging directory, seen from the source.
  Moved-of_staging :
      (o : Outcome) (src dst s : FilePath) (old mid new : Files A)
      → mid s ≡ old src
      → new src ≡ old src
      → mid dst ≡ old dst
      → Moved o s dst mid new
      → Moved o src dst old new
  unfolding Moved
  Moved-of_staging returned src dst s old mid new h k l m = m ∙ h
  Moved-of_staging raised src dst s old mid new h k l m = (k, m.1 ∙ l)
  Moved-of_staging raised_exdev src dst s old mid new h k l m = (k, m.1 ∙ l)

  activate-Moved :
      (o : Outcome) (src dst s : FilePath) (old : Files A) (w : World A)
      → (src == dst) ≡ false
      → (dst == src) ≡ false
      → (s == src) ≡ false
      → (s == dst) ≡ false
      → Copied o src s old w.0
      → w.0 src ≡ old src
      → w.0 dst ≡ old dst
      → let r = activate pid time o src s dst w in Moved r.0 src dst old r.1.0
  unfolding activate Copied Moved
  activate-Moved returned src dst s old w h i k l c a b =
      let r = rename s dst w in
      settle-Moved r.0 src dst s old r.1 h k l (
        Moved-of_staging r.0 src dst s old w.0 r.1.0 c (rename-others s dst src w k i ∙ a) b
          (rename-Moved s dst w l))
  activate-Moved raised src dst s old w h i k l c a b =
      settle-Moved raised src dst s old w h k l (a, b)
  activate-Moved raised_exdev src dst s old w h i k l c a b =
      settle-Moved raised src dst s old w h k l (a, b)

  Moved-later :
      (o : Outcome) (src dst : FilePath) (old mid new : Files A)
      → mid src ≡ old src
      → mid dst ≡ old dst
      → Moved o src dst mid new
      → Moved o src dst old new
  unfolding Moved
  Moved-later returned src dst old mid new a b m = m ∙ a
  Moved-later raised src dst old mid new a b m = (m.0 ∙ a, m.1 ∙ b)
  Moved-later raised_exdev src dst old mid new a b m = (m.0 ∙ a, m.1 ∙ b)

  staged_copy-Moved :
      (src dst : FilePath) (w : World A)
      → (src == dst) ≡ false
      → (dst == src) ≡ false
      → IsOff pid time dst src
      → IsOff pid time dst dst
      → let r = staged_copy pid time src dst w in Moved r.0 src dst w.0 r.1.0
  unfolding staged_copy
  staged_copy-Moved src dst w h i k l =
      let c = clear_staging pid time dst w in
      let r = copytree src c.0 c.1 in
      let off_src = clear_staging-off dst src w k in
      let off_dst = clear_staging-off dst dst w l in
      Moved-later _ src dst w.0 c.1.0 _ (clear_staging-others dst src w k)
        (clear_staging-others dst dst w l)
        (activate-Moved r.0 src dst c.0 c.1.0 r.1 h i off_src off_dst (copytree-Copied src c.0 c.1)
          (copytree-others src c.0 src c.1 off_src) (copytree-others src c.0 dst c.1 off_dst))

  replaced-Moved :
      (o : Outcome) (src dst : FilePath) (old : Files A) (w : World A)
      → (src == dst) ≡ false
      → (dst == src) ≡ false
      → IsOff pid time dst src
      → IsOff pid time dst dst
      → Moved o src dst old w.0
      → let r = replaced pid time o src dst w in Moved r.0 src dst old r.1.0
  unfolding replaced Moved
  replaced-Moved returned src dst old w h i k l m = m
  replaced-Moved raised src dst old w h i k l m = m
  replaced-Moved raised_exdev src dst old w h i k l m =
      Moved-later _ src dst old w.0 _ m.0 m.1 (staged_copy-Moved src dst w h i k l)

  -- A replacement that returned put the source's tree at the destination; one that raised left
  -- both alone, on one device and across devices.
  pub replace_tree-Moved :
      (src dst : FilePath) (w : World A)
      → (src == dst) ≡ false
      → (dst == src) ≡ false
      → IsOff pid time dst src
      → IsOff pid time dst dst
      → let r = replace_tree pid time src dst w in Moved r.0 src dst w.0 r.1.0
  unfolding replace_tree
  replace_tree-Moved src dst w h i k l =
      let r = rename src dst w in
      replaced-Moved r.0 src dst w.0 r.1 h i k l (rename-Moved src dst w h)

  settle-others :
      (o : Outcome) (src s p : FilePath) (w : World A)
      → (src == p) ≡ false
      → (s == p) ≡ false
      → (settle pid time o src s w).1.0 p ≡ w.0 p
  unfolding settle
  settle-others returned src s p w h k = rmtree-others src p w h
  settle-others raised src s p w h k = rmtree-others s p w k
  settle-others raised_exdev src s p w h k = rmtree-others s p w k

  activate-others :
      (o : Outcome) (src s dst p : FilePath) (w : World A)
      → (src == p) ≡ false
      → (s == p) ≡ false
      → (dst == p) ≡ false
      → (activate pid time o src s dst w).1.0 p ≡ w.0 p
  unfolding activate
  activate-others returned src s dst p w h k l =
      let r = rename s dst w in settle-others r.0 src s p r.1 h k ∙ rename-others s dst p w k l
  activate-others raised src s dst p w h k l = settle-others raised src s p w h k
  activate-others raised_exdev src s dst p w h k l = settle-others raised src s p w h k

  replaced-others :
      (o : Outcome) (src dst p : FilePath) (w : World A)
      → (src == p) ≡ false
      → (dst == p) ≡ false
      → IsOff pid time dst p
      → (replaced pid time o src dst w).1.0 p ≡ w.0 p
  unfolding replaced staged_copy
  replaced-others returned src dst p w h k l = refl
  replaced-others raised src dst p w h k l = refl
  replaced-others raised_exdev src dst p w h k l =
      let c = clear_staging pid time dst w in
      let r = copytree src c.0 c.1 in
      let off = clear_staging-off dst p w l in
      activate-others r.0 src c.0 dst p r.1 h off k
      ∙ (copytree-others src c.0 p c.1 off ∙ clear_staging-others dst p w l)

  pub replace_tree-others :
      (src dst p : FilePath) (w : World A)
      → (src == p) ≡ false
      → (dst == p) ≡ false
      → IsOff pid time dst p
      → (replace_tree pid time src dst w).1.0 p ≡ w.0 p
  unfolding replace_tree
  replace_tree-others src dst p w h k l =
      let r = rename src dst w in
      replaced-others r.0 src dst p r.1 h k l ∙ rename-others src dst p w h k
