-- ===== src/AtomicPublish/Publish.antt =====
-- `_replace_tree` and `publish_directory`. The process id and the clock reading that name the
-- staging directories are arguments.
use el_sca_ansamble.Prelude.{String, Bool, true, false, not, ◌&&◌, [], ◌∷◌, if◌then◌else◌}
use el_sca_ansamble.Prelude.Text.{join}
use el_sca_ansamble.AtomicPublish.Disk.{
  FilePath, Outcome, returned, raised, raised_exdev, World, exists, rename, copytree, rmtree,
}

-- `dst.parent / f".staging_{dst.name}_{pid}"`
unfoldable pub staging_path : String → FilePath → FilePath
staging_path pid dst = record {
  parent = dst.parent;
  name = join "" (".staging_" ∷ dst.name ∷ "_" ∷ pid ∷ []);
}

unfoldable pub fresh_staging_path : String → String → FilePath → FilePath
fresh_staging_path pid time dst = record {
  parent = dst.parent;
  name = join "" (".staging_" ∷ dst.name ∷ "_" ∷ pid ∷ "_" ∷ time ∷ []);
}

module _ {A : Type 0} (pid time : String) where
  -- The staging directory to use: a stale one is removed, and left alone when that fails.
  unfoldable pub clear_staging : FilePath → World A → FilePath × World A
  clear_staging dst w =
      let staging = staging_path pid dst in
      if exists (w.0 staging)
      then (let w' = (rmtree staging w).1 in
          ((if exists (w'.0 staging) then fresh_staging_path pid time dst else staging), w'))
      else (staging, w)

  -- The end of the staged copy: a failure removes the staging directory, and success the source.
  unfoldable pub settle : Outcome → FilePath → FilePath → World A → Outcome × World A
  settle returned src staging w = (returned, (rmtree src w).1)
  settle _ src staging w = (raised, (rmtree staging w).1)

  unfoldable pub activate : Outcome → FilePath → FilePath → FilePath → World A → Outcome × World A
  activate returned src staging dst w = let (o, w) = rename staging dst w in settle o src staging w
  activate _ src staging dst w = settle raised src staging w

  unfoldable pub staged_copy : FilePath → FilePath → World A → Outcome × World A
  staged_copy src dst w =
      let (staging, w) = clear_staging dst w in
      let (o, w) = copytree src staging w in activate o src staging dst w

  unfoldable pub replaced : Outcome → FilePath → FilePath → World A → Outcome × World A
  replaced raised_exdev src dst w = staged_copy src dst w
  replaced o src dst w = (o, w)

  unfoldable pub replace_tree : FilePath → FilePath → World A → Outcome × World A
  replace_tree src dst w = let (o, w) = rename src dst w in replaced o src dst w

  -- `except Exception`: the archived tree goes back when the active one is absent.
  unfoldable pub roll_back : Bool → FilePath → FilePath → World A → World A
  roll_back moved_active active previous w =
      if moved_active && (not (exists (w.0 active)) && exists (w.0 previous))
      then (replace_tree previous active w).1
      else w

  unfoldable pub promoted : Outcome → Bool → FilePath → FilePath → World A → Outcome × World A
  promoted returned moved active previous w = (returned, w)
  promoted _ moved active previous w = (raised, roll_back moved active previous w)

  -- The activation, after the archiving of the active tree.
  unfoldable pub promote :
      Outcome → Bool → FilePath → FilePath → FilePath → World A → Outcome × World A
  promote returned moved temp active previous w =
      let (o, w) = replace_tree temp active w in promoted o moved active previous w
  promote _ moved temp active previous w = (raised, roll_back false active previous w)

  unfoldable pub archive : FilePath → FilePath → FilePath → World A → Outcome × World A
  archive temp active previous w =
      if exists (w.0 active)
      then (let (o, w) = replace_tree active previous w in promote o true temp active previous w)
      else promote returned false temp active previous w

  unfoldable pub cleared : Outcome → FilePath → FilePath → FilePath → World A → Outcome × World A
  cleared returned temp active previous w = archive temp active previous w
  cleared _ temp active previous w = (raised, w)

  unfoldable pub publish_directory : FilePath → FilePath → FilePath → World A → Outcome × World A
  publish_directory temp active previous w =
      if exists (w.0 previous)
      then (let (o, w) = rmtree previous w in cleared o temp active previous w)
      else archive temp active previous w
