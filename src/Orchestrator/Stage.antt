-- ===== src/Orchestrator/Stage.antt =====
-- The stages of a job: `service_to_stage`, `_initial_stage_list`, `_index`, `_resolve_stage`, and
-- the changes of the stage list that `_advance`, `begin_stage`, `end_stage` and `finish` make.
use el_sca_ansamble.Prelude.{
  ℕ, zero, suc, String, Bool, true, false, not, ◌||◌, Option, none, some, List, [], ◌∷◌,
  if◌then◌else◌, ltb,
}
use el_sca_ansamble.Prelude.Keys.{◌==◌, string_eq, insert, lookup}
use el_sca_ansamble.Prelude.Text.{text_length, ends_with, join}
use el_sca_ansamble.Prelude.Sort.{sort}

pub data StageStatus : Type 0 where
  pending active done error : StageStatus

abbrev pub is_pending : StageStatus → Bool
is_pending pending = true
is_pending _ = false

abbrev pub is_active : StageStatus → Bool
is_active active = true
is_active _ = false

abbrev pub is_done : StageStatus → Bool
is_done done = true
is_done _ = false

abbrev pub is_error : StageStatus → Bool
is_error error = true
is_error _ = false

-- `(stage_key, human_label, [compose service names feeding it])`
pub record StageSpec : Type 0 where
  pub key : String
  pub label : String
  pub services : List String

pub record Stage : Type 0 where
  pub key : String
  pub label : String
  pub status : StageStatus

abbrev assign_services : String → List String → List (String × String) → List (String × String)
assign_services key [] d = d
assign_services key (s ∷ ss) d = assign_services key ss (insert s key d)

abbrev service_map : List StageSpec → List (String × String) → List (String × String)
service_map [] d = d
service_map (spec ∷ specs) d = service_map specs (assign_services spec.key spec.services d)

unfoldable pub service_to_stage : List StageSpec → List (String × String)
service_to_stage specs = service_map specs []

unfoldable pub initial_stage_list : List StageSpec → List Stage
initial_stage_list [] = []
initial_stage_list (spec ∷ specs) =
    record { key = spec.key; label = spec.label; status = pending } ∷ initial_stage_list specs

-- `{k: i for i, (k, _, _) in enumerate(stages)}`
unfoldable pub index_from : ℕ → List StageSpec → List (String × ℕ) → List (String × ℕ)
index_from i [] d = d
index_from i (spec ∷ specs) d = index_from (suc i) specs (insert spec.key i d)

abbrev longer : String × String → String × String → Bool
longer p q = ltb (text_length q.0) (text_length p.0)

-- The services with their stages, the longest name first.
unfoldable pub service_pairs : List (String × String) → List (String × String)
service_pairs d = sort longer d

abbrev pub matches : String → String → Bool
matches svc name = svc == name || ends_with svc (join "" ("-" ∷ name ∷ []))

unfoldable pub first_match : String → List (String × String) → Option String
first_match svc [] = none
first_match svc ((name, key) ∷ pairs) =
    let rest = first_match svc pairs in if matches svc name then some key else rest

abbrev exact_or : Option String → Option String → Option String
exact_or (some key) rest = some key
exact_or none rest = rest

unfoldable pub resolve_stage : List (String × String) → String → Option String
resolve_stage services svc =
    exact_or (lookup svc services) (first_match svc (service_pairs services))

-- `_advance` on the list: the stages before the index are done, the one at it is active.
unfoldable pub advance_list : ℕ → List Stage → List Stage
advance_list n [] = []
advance_list zero (s ∷ ss) = record s { status = active } ∷ ss
advance_list (suc n) (s ∷ ss) = record s { status = done } ∷ advance_list n ss

-- Whether `_advance` changes a status.
unfoldable pub advance_changes : ℕ → List Stage → Bool
advance_changes n [] = false
advance_changes zero (s ∷ ss) = not (is_active s.status)
advance_changes (suc n) (s ∷ ss) = let rest = advance_changes n ss in not (is_done s.status) || rest

abbrev pub passed : StageStatus → StageStatus
passed done = done
passed error = error
passed _ = done

abbrev pub started : StageStatus → StageStatus
started pending = active
started s = s

-- `begin_stage` on the list: an earlier stage is done unless it failed, and a pending stage at the
-- index becomes active.
unfoldable pub begin_list : ℕ → List Stage → List Stage
begin_list n [] = []
begin_list zero (s ∷ ss) = record s { status = started s.status } ∷ ss
begin_list (suc n) (s ∷ ss) = record s { status = passed s.status } ∷ begin_list n ss

-- `stages[i]["status"] = status`
unfoldable pub set_status : ℕ → StageStatus → List Stage → List Stage
set_status n status [] = []
set_status zero status (s ∷ ss) = record s { status = status } ∷ ss
set_status (suc n) status (s ∷ ss) = s ∷ set_status n status ss

unfoldable pub all_done : List Stage → List Stage
all_done [] = []
all_done (s ∷ ss) = record s { status = done } ∷ all_done ss

abbrev failed : StageStatus → StageStatus
failed active = error
failed s = s

unfoldable pub active_to_error : List Stage → List Stage
active_to_error [] = []
active_to_error (s ∷ ss) = record s { status = failed s.status } ∷ active_to_error ss
