-- ===== src/Load/Selected.antt =====
-- config_load.go: the whole of loadSelected, and environmentConflictSummary's policy.
use confii_go.Base.{Bool, false, ◌||◌, not, Option, none, some, List, [], ◌∷◌}
use confii_go.Base.{Text, length, ◌==◌, if◌then◌else◌}
use confii_go.Value.{Fields}
use confii_go.Envhandler.{resolve}
use confii_go.Merge.{merge_all}
use confii_go.Sourcetrack.{Tracker}
use confii_go.Load.Strategy.{
  EnvironmentStrategy, auto, sectioned, hybrid, EnvironmentConflictPolicy, conflict_error,
  conflict_warn, conflict_last_wins,
}
use confii_go.Load.Conflicts.{Conflict, mixed_environment_conflicts}
use confii_go.Load.Turns.{
  hybrid_incomplete, conflicting, merge_panicked, Warning, Cache, Slot, no_cache,
}
use confii_go.Load.Plan.{
  LoadSettings, SourcePlan, Loading, loaded, aborted, Progress, Turns, run_turns,
}

-- What a load leaves in the Config, apart from its caches and its tracker of files.
pub record Result : Type 0 where
  pub merged : Fields
  pub env_config : Fields
  pub tracker : Tracker
  pub source_plan : SourcePlan
  pub conflict_warning : Option (List Conflict)

pub record Loaded : Type 0 where
  pub result : Result
  pub caches : List Cache
  pub tracked : List Text
  pub warnings : List Warning

unfoldable pub first_progress : Tracker → Progress
first_progress t = record {
  configs = [];
  resolved_configs = [];
  uses_files = false;
  plan_layers = [];
  writers = [];
  saw_sectioned = false;
  saw_named = false;
  plan_error = none;
  tracker = t;
}

-- `if plan.Strategy == EnvironmentStrategyAuto && sawSectionedSource`
unfoldable pub effective_strategy : EnvironmentStrategy → Bool → EnvironmentStrategy
effective_strategy auto saw_sectioned = if saw_sectioned then sectioned else auto
effective_strategy s saw_sectioned = s

-- The switch on the policy. The conflicts that are warned of, or an error.
unfoldable pub on_conflicts :
    EnvironmentConflictPolicy → List Conflict → Loading (Option (List Conflict))
on_conflicts policy [] = loaded none
on_conflicts conflict_error (c ∷ cs) = aborted (conflicting (c ∷ cs))
on_conflicts conflict_warn (c ∷ cs) = loaded (some (c ∷ cs))
on_conflicts conflict_last_wins (c ∷ cs) = loaded none

-- The checks of the strategy "hybrid": the conflicts of the plan, and those that are warned of.
unfoldable pub check_hybrid :
    EnvironmentStrategy
    → EnvironmentConflictPolicy
    → Progress
    → Loading (List Conflict × Option (List Conflict))
check_hybrid hybrid policy p =
    if not p.saw_named || not p.saw_sectioned
    then aborted hybrid_incomplete
    else elim (on_conflicts policy (mixed_environment_conflicts p.writers)) [
      | aborted e ↦ aborted e
      | loaded w ↦ loaded (mixed_environment_conflicts p.writers, w)
    ]
check_hybrid s policy p = loaded ([], none)

-- `slots` with the caches of a Config.
unfoldable pub recache : List Cache → List Slot → List Slot
recache caches [] = []
recache [] (s ∷ slots) = record s { cache = no_cache } ∷ recache [] slots
recache (c ∷ caches) (s ∷ slots) = record s { cache = c } ∷ recache caches slots

module _ (st : LoadSettings) where
  unfoldable pub merged_env : Fields → Progress → Option Fields
  merged_env merged p =
      if p.uses_files
      then merge_all st.merger p.resolved_configs
      else some (resolve merged st.env).0

  -- The part of `loadSelected` after the merges.
  unfoldable pub conclude : Fields → Fields → Progress → Loading Result
  conclude merged env_config p = elim (check_hybrid st.strategy st.conflict_policy p) [
    | aborted e ↦ aborted e
    | loaded (conflicts, warned) ↦ loaded (record {
      merged = merged;
      env_config = env_config;
      tracker = p.tracker;
      source_plan = record {
        environment = st.env;
        plan_strategy = effective_strategy st.strategy p.saw_sectioned;
        plan_policy = st.conflict_policy;
        layers = p.plan_layers;
        conflicts = conflicts;
      };
      conflict_warning = warned;
    })
  ]

  -- The part of `loadSelected` after its loop.
  unfoldable pub finish_load : Progress → Loading Result
  finish_load p = elim p.plan_error [
    | some e ↦ aborted e
    | none ↦ elim (merge_all st.merger p.configs) [
      | none ↦ aborted merge_panicked
      | some merged ↦ elim (merged_env merged p) [
        | none ↦ aborted merge_panicked
        | some env_config ↦ conclude merged env_config p
      ]
    ]
  ]

  unfoldable pub with_result : Turns → Loading Result → Loading Loaded
  with_result r (aborted e) = aborted e
  with_result r (loaded result) =
      loaded
        (record { result = result; caches = r.caches; tracked = r.tracked; warnings = r.warnings })

  unfoldable pub after_loop : Loading Turns → Loading Loaded
  after_loop (aborted e) = aborted e
  after_loop (loaded r) = with_result r (finish_load r.progress)

  unfoldable pub load_slots : Option (Text → Bool) → List Slot → Tracker → Loading Loaded
  load_slots selected slots tracker =
      after_loop (run_turns st selected 0 slots (first_progress tracker))

  -- `loadSelected`: caches that are not those of the loaders are dropped.
  unfoldable pub load_selected :
      Option (Text → Bool) → List Cache → List Slot → Tracker → Loading Loaded
  load_selected selected caches slots tracker =
      if length caches == length slots
      then load_slots selected (recache caches slots) tracker
      else load_slots none (recache [] slots) tracker
