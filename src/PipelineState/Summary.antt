-- ===== src/PipelineState/Summary.antt =====
-- `summarize`: the view of a state file, and the order of its stages.
use el_sca_ansamble.Prelude.{
  String, ◌≡◌, refl, ap, ◌∙◌, Bool, true, not, ◌&&◌, Option, none, some, List, [], ◌∷◌, ◌++◌, arith,
  if◌then◌else◌,
}
use el_sca_ansamble.Prelude.Int.{ℤ}
use el_sca_ansamble.Prelude.Keys.{◌==◌, ==_iff, string_eq, contains, contains-append, keys, lookup}
use el_sca_ansamble.PipelineState.State.{Status, is_active, State, Platform, known_stages, Info}
use el_sca_ansamble.PipelineState.Stages.{or_new}

-- `[s for s in names if s in stages]`
unfoldable pub present : List String → List String → List String
present stages [] = []
present stages (s ∷ ss) =
    let rest = present stages ss in if contains s stages then s ∷ rest else rest

-- `[s for s in stages if s not in order]`
unfoldable pub missing_from : List String → List String → List String
missing_from order [] = []
missing_from order (s ∷ ss) =
    let rest = missing_from order ss in if contains s order then rest else s ∷ rest

-- The known stages in their order, then the others as they stand in the file.
unfoldable pub stage_order : List String → List String
stage_order stages = let order = present stages known_stages in order ++ missing_from order stages

module _ (p : Platform) where
  open p use {Time, Duration, elapsed}

  pub record Entry : Type 0 where
    pub stage : String
    pub status : Status
    pub duration_s : Option Duration
    pub elapsed_s : Option Duration
    pub rc : Option ℤ
    pub skipped_via_resume : Bool

  -- A running stage shows the time since its start, if it has no duration.
  abbrev pub since : Bool → Option Time → Time → Option Duration
  since true (some started) now = some (elapsed now started)
  since _ _ now = none

  abbrev pub elapsed_of : Option Duration → Info p → Time → Option Duration
  elapsed_of (some d) info now = none
  elapsed_of none info now = since (is_active info.status) info.started_ts now

  abbrev pub entry_of : String → Info p → Time → Entry
  entry_of name info now = record {
    stage = name;
    status = info.status;
    duration_s = info.duration_s;
    elapsed_s = elapsed_of info.duration_s info now;
    rc = info.rc;
    skipped_via_resume = info.skipped_via_resume;
  }

  abbrev pub entries_of : List String → List (String × Info p) → Time → List Entry
  entries_of [] stages now = []
  entries_of (name ∷ names) stages now =
      entry_of name (or_new p (lookup name stages)) now ∷ entries_of names stages now

  pub record View : Type 0 where
    pub status : String
    pub target : String
    pub tool : String
    pub case_id : String
    pub run_key : String
    pub resumed : Bool
    pub current_stage : Option String
    pub started_utc : String
    pub updated_utc : String
    pub stages : List Entry
    pub elapsed_s : Option Duration

  -- Without a state there is no view.
  unfoldable pub summarize : Option (State Time Duration) → Time → Option View
  summarize none now = none
  summarize (some state) now = some (record {
    status = state.status;
    target = state.target;
    tool = state.tool;
    case_id = state.case_id;
    run_key = state.run_key;
    resumed = state.resumed;
    current_stage = state.current_stage;
    started_utc = state.started_utc;
    updated_utc = state.updated_utc;
    stages = entries_of (stage_order (keys state.stages)) state.stages now;
    elapsed_s = since (state.status == "running") (some state.started_ts) now;
  })

contains-present :
    (s : String) (stages names : List String)
    → contains s (present stages names) ≡ (contains s names && contains s stages)
unfolding present contains
contains-present s stages [] = refl
contains-present s stages (n ∷ ns) =
    ground (
      arith,
      contains-present s stages ns,
      ==_iff s n,
      λ (h : s ≡ n). ap (λ z. contains z stages) h,
    )

contains-missing_from :
    (s : String) (order stages : List String)
    → contains s (missing_from order stages) ≡ (contains s stages && not (contains s order))
unfolding missing_from contains
contains-missing_from s order [] = refl
contains-missing_from s order (n ∷ ns) = ground (
  arith,
  contains-missing_from s order ns,
  ==_iff s n,
  λ (h : s ≡ n). ap (λ z. contains z order) h,
)

contains-stage_order :
    (s : String) (stages : List String) → contains s (stage_order stages) ≡ contains s stages
unfolding stage_order
contains-stage_order s stages =
    let order = present stages known_stages in
    ground (
      arith,
      contains-append s order (missing_from order stages),
      contains-missing_from s order stages,
      contains-present s stages known_stages,
    )

module _ (p : Platform) where
  open p use {Time, Duration}

  abbrev pub stage_names : List (Entry p) → List String
  stage_names [] = []
  stage_names (e ∷ es) = e.stage ∷ stage_names es

  stage_names-entries_of :
      (names : List String) (stages : List (String × Info p)) (now : Time)
      → stage_names (entries_of p names stages now) ≡ names
  stage_names-entries_of [] stages now = refl
  stage_names-entries_of (n ∷ ns) stages now =
      ap (λ r. n ∷ r) (stage_names-entries_of ns stages now)

  abbrev pub shown_stages : Option (View p) → List String
  shown_stages none = []
  shown_stages (some view) = stage_names view.stages

  -- The view of a state has an entry for a stage name exactly when the state has one, whether the
  -- program knows the stage or not.
  pub summarize-stages :
      (s : String) (state : State Time Duration) (now : Time)
      → contains s (shown_stages (summarize p (some state) now)) ≡ contains s (keys state.stages)
  unfolding summarize
  summarize-stages s state now =
      ap (contains s) (stage_names-entries_of (stage_order (keys state.stages)) state.stages now)
      ∙ contains-stage_order s (keys state.stages)
