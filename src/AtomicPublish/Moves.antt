-- ===== src/AtomicPublish/Moves.antt =====
-- What the calls of the operating system do to the paths that they name, and to the others.
use el_sca_ansamble.Prelude.{◌≡◌, refl, sym, false, Option, none, some}
use el_sca_ansamble.Prelude.Keys.{◌==◌, ==_refl}
use el_sca_ansamble.AtomicPublish.Disk.{
  FilePath, path_eq, Fault, fine, exdev, breaks, Outcome, returned, Files, World, next, rename_with,
  rename, copytree_with, copytree, rmtree_with, rmtree,
}

-- A move that returned put the source's tree at the destination; one that raised left both alone.
unfoldable pub Moved : {A : Type 0} → Outcome → FilePath → FilePath → Files A → Files A → Type 0
Moved returned src dst old new = new dst ≡ old src
Moved _ src dst old new = (new src ≡ old src) × (new dst ≡ old dst)

-- A copy that returned made the destination a copy of the source.
unfoldable pub Copied : {A : Type 0} → Outcome → FilePath → FilePath → Files A → Files A → Type 0
Copied returned src dst old new = new dst ≡ old src
Copied _ src dst old new = Unit

module _ {A : Type 0} where
  rename_with-Moved :
      (f : Fault A) (src dst : FilePath) (files : Files A)
      → (src == dst) ≡ false
      → (s d : Option A) → files src ≡ s
      → let r = rename_with f src dst s d files in Moved r.0 src dst files r.1
  unfolding rename_with Moved
  rename_with-Moved fine src dst files h (some a) none e = rw (h, ==_refl dst) (sym e)
  rename_with-Moved fine src dst files h (some a) (some b) e = (refl, refl)
  rename_with-Moved fine src dst files h none d e = (refl, refl)
  rename_with-Moved exdev src dst files h s d e = (refl, refl)
  rename_with-Moved (breaks r) src dst files h s d e = (refl, refl)

  pub rename-Moved :
      (src dst : FilePath) (w : World A)
      → (src == dst) ≡ false
      → let r = rename src dst w in Moved r.0 src dst w.0 r.1.0
  unfolding rename
  rename-Moved src dst (files, faults) h =
      rename_with-Moved (next faults).0 src dst files h (files src) (files dst) refl

  rename_with-others :
      (f : Fault A) (src dst p : FilePath) (files : Files A) (s d : Option A)
      → (src == p) ≡ false
      → (dst == p) ≡ false
      → (rename_with f src dst s d files).1 p ≡ files p
  unfolding rename_with
  rename_with-others fine src dst p files (some a) none h k = rw (h, k) refl
  rename_with-others fine src dst p files (some a) (some b) h k = refl
  rename_with-others fine src dst p files none d h k = refl
  rename_with-others exdev src dst p files s d h k = refl
  rename_with-others (breaks r) src dst p files s d h k = refl

  pub rename-others :
      (src dst p : FilePath) (w : World A)
      → (src == p) ≡ false
      → (dst == p) ≡ false
      → (rename src dst w).1.0 p ≡ w.0 p
  unfolding rename
  rename-others src dst p (files, faults) h k =
      rename_with-others (next faults).0 src dst p files (files src) (files dst) h k

  copytree_with-Copied :
      (f : Fault A) (src dst : FilePath) (files : Files A) (s d : Option A)
      → files src ≡ s
      → let r = copytree_with f dst s d files in Copied r.0 src dst files r.1
  unfolding copytree_with Copied
  copytree_with-Copied fine src dst files (some a) none e = rw (==_refl dst) (sym e)
  copytree_with-Copied fine src dst files (some a) (some b) e = tt
  copytree_with-Copied fine src dst files none d e = tt
  copytree_with-Copied exdev src dst files s d e = tt
  copytree_with-Copied (breaks r) src dst files (some a) none e = tt
  copytree_with-Copied (breaks r) src dst files (some a) (some b) e = tt
  copytree_with-Copied (breaks r) src dst files none d e = tt

  copytree_with-others :
      (f : Fault A) (dst p : FilePath) (files : Files A) (s d : Option A)
      → (dst == p) ≡ false
      → (copytree_with f dst s d files).1 p ≡ files p
  unfolding copytree_with
  copytree_with-others fine dst p files (some a) none h = rw h refl
  copytree_with-others fine dst p files (some a) (some b) h = refl
  copytree_with-others fine dst p files none d h = refl
  copytree_with-others exdev dst p files s d h = refl
  copytree_with-others (breaks r) dst p files (some a) none h = rw h refl
  copytree_with-others (breaks r) dst p files (some a) (some b) h = refl
  copytree_with-others (breaks r) dst p files none d h = refl

  rmtree_with-others :
      (f : Fault A) (q p : FilePath) (files : Files A)
      → (q == p) ≡ false
      → (rmtree_with f q files).1 p ≡ files p
  unfolding rmtree_with
  rmtree_with-others fine q p files h = rw h refl
  rmtree_with-others exdev q p files h = refl
  rmtree_with-others (breaks r) q p files h = rw h refl

  pub rmtree-others : (q p : FilePath) (w : World A) → (q == p) ≡ false → (rmtree q w).1.0 p ≡ w.0 p
  unfolding rmtree
  rmtree-others q p (files, faults) h = rmtree_with-others (next faults).0 q p files h

  pub copytree-Copied :
      (src dst : FilePath) (w : World A)
      → let r = copytree src dst w in Copied r.0 src dst w.0 r.1.0
  unfolding copytree
  copytree-Copied src dst (files, faults) =
      copytree_with-Copied (next faults).0 src dst files (files src) (files dst) refl

  pub copytree-others :
      (src dst p : FilePath) (w : World A) → (dst == p) ≡ false → (copytree src dst w).1.0 p ≡ w.0 p
  unfolding copytree
  copytree-others src dst p (files, faults) h =
      copytree_with-others (next faults).0 dst p files (files src) (files dst) h
