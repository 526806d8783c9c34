-- ===== src/AtomicPublish/Disk.antt =====
-- The file system that `publish_directory` works on: a path holds a tree or nothing. Each call of
-- the operating system takes the next fault: none, a cross-device error, or a failure that leaves
-- a remnant of the tree that the call was copying or removing. Paths hold non-empty directories,
-- so a rename onto one that exists fails. The trees of different paths have nothing in common: no
-- path lies inside another.
use el_sca_ansamble.Prelude.{
  String, ◌≡◌, Bool, true, false, Option, none, some, List, [], ◌∷◌, if◌then◌else◌, ◌&&◌, ◌↔◌,
  arith,
}
use el_sca_ansamble.Prelude.Keys.{HasEquality, ◌==◌, ==_iff, string_eq}

pub record FilePath : Type 0 where
  pub parent : String
  pub name : String

unfoldable pub path_beq : FilePath → FilePath → Bool
path_beq p q = p.parent == q.parent && p.name == q.name

pub path_beq_iff : (p q : FilePath) → (path_beq p q ≡ true) ↔ (p ≡ q)
unfolding path_beq
path_beq_iff p q = ground (arith, ==_iff p.parent q.parent, ==_iff p.name q.name)

instance abbrev pub path_eq : HasEquality FilePath
path_eq = record { same = path_beq; same_iff = path_beq_iff }

pub data Fault (A : Type 0) : Type 0 where
  fine exdev : Fault A
  breaks : Option A → Fault A

pub data Outcome : Type 0 where
  returned raised raised_exdev : Outcome

abbrev pub Files : Type 0 → Type 0
Files A = FilePath → Option A

abbrev pub World : Type 0 → Type 0
World A = Files A × List (Fault A)

module _ {A : Type 0} where
  abbrev pub put : FilePath → Option A → Files A → Files A
  put p a files q = if p == q then a else files q

  abbrev pub next : List (Fault A) → Fault A × List (Fault A)
  next [] = (fine, [])
  next (f ∷ fs) = (f, fs)

  abbrev pub exists : Option A → Bool
  exists none = false
  exists (some a) = true

  -- `os.rename`, by the fault and what the two paths hold
  unfoldable pub rename_with :
      Fault A → FilePath → FilePath → Option A → Option A → Files A → Outcome × Files A
  rename_with fine src dst (some a) none files = (returned, put src none (put dst (some a) files))
  rename_with fine src dst _ _ files = (raised, files)
  rename_with exdev src dst _ _ files = (raised_exdev, files)
  rename_with (breaks _) src dst _ _ files = (raised, files)

  unfoldable pub rename : FilePath → FilePath → World A → Outcome × World A
  rename src dst (files, faults) =
      let (f, faults) = next faults in
      let (o, files') = rename_with f src dst (files src) (files dst) files in (o, (files', faults))

  -- `shutil.copytree`: it fails when the destination exists
  unfoldable pub copytree_with :
      Fault A → FilePath → Option A → Option A → Files A → Outcome × Files A
  copytree_with fine dst (some a) none files = (returned, put dst (some a) files)
  copytree_with (breaks r) dst (some a) none files = (raised, put dst r files)
  copytree_with _ dst _ _ files = (raised, files)

  unfoldable pub copytree : FilePath → FilePath → World A → Outcome × World A
  copytree src dst (files, faults) =
      let (f, faults) = next faults in
      let (o, files') = copytree_with f dst (files src) (files dst) files in (o, (files', faults))

  -- `shutil.rmtree`; with `ignore_errors` the outcome is not looked at
  unfoldable pub rmtree_with : Fault A → FilePath → Files A → Outcome × Files A
  rmtree_with fine p files = (returned, put p none files)
  rmtree_with exdev p files = (raised, files)
  rmtree_with (breaks r) p files = (raised, put p r files)

  unfoldable pub rmtree : FilePath → World A → Outcome × World A
  rmtree p (files, faults) =
      let (f, faults) = next faults in
      let (o, files') = rmtree_with f p files in (o, (files', faults))
