-- ===== src/Tests/Publishing.antt =====
-- A promotion of a directory that meets a cross-device error.
use el_sca_ansamble.Prelude.{String, ◌≡◌, refl, none, some, [], ◌∷◌}
use el_sca_ansamble.Prelude.Text.{join}
use el_sca_ansamble.AtomicPublish.Disk.{
  FilePath, path_beq, path_eq, fine, exdev, breaks, raised, Files, World, put,
}
use el_sca_ansamble.AtomicPublish.Publish.{staging_path, fresh_staging_path, publish_directory}
use el_sca_ansamble.AtomicPublish.Replacement.{IsLayout, Kept}
use el_sca_ansamble.AtomicPublish.Rollback.{publish_directory-Kept, publish_directory-restores}

abbrev temp_dir : FilePath
temp_dir = record { parent = "/data"; name = "temp" }

abbrev active_dir : FilePath
active_dir = record { parent = "/db"; name = "active" }

abbrev previous_dir : FilePath
previous_dir = record { parent = "/db"; name = "previous" }

abbrev before : World String
before = (
  put temp_dir (some "new") (put active_dir (some "old") (λ p. none)),
  fine ∷ exdev ∷ breaks (some "half") ∷ [],
)

abbrev layout : IsLayout "7" "99" temp_dir active_dir previous_dir
unfolding staging_path fresh_staging_path join path_beq
layout = record {
  temp_active = refl;
  active_temp = refl;
  temp_previous = refl;
  previous_temp = refl;
  active_previous = refl;
  previous_active = refl;
  previous_off_temp = (refl, refl);
  previous_off_active = (refl, refl);
  previous_off_previous = (refl, refl);
  active_off_temp = (refl, refl);
  active_off_active = (refl, refl);
  active_off_previous = (refl, refl);
}

active_stored : before.0 active_dir ≡ some "old"
unfolding path_beq
active_stored = refl

publish_directory-Kept_example :
    let r = publish_directory "7" "99" temp_dir active_dir previous_dir before in
    Kept r.0 (before.0 temp_dir) (some "old") active_dir previous_dir r.1.0
publish_directory-Kept_example =
    publish_directory-Kept "7" "99" temp_dir active_dir previous_dir layout "old" before
      active_stored

abbrev stored : Files String
stored = put temp_dir (some "new") (put active_dir (some "old") (λ p. none))

previous_absent : stored previous_dir ≡ none
unfolding path_beq
previous_absent = refl

publish_directory-restores_example :
    let r =
      publish_directory "7" "99" temp_dir active_dir previous_dir
        (stored, fine ∷ breaks none ∷ []) in
    (r.0 ≡ raised) × (r.1.0 active_dir ≡ some "old")
publish_directory-restores_example =
    publish_directory-restores "7" "99" temp_dir active_dir previous_dir layout "old" none stored
      active_stored previous_absent
