-- ===== src/Load/Plan.antt =====
-- config_load.go: the loop of loadSelected over the loaders and what it makes of their contributions,
-- with the source plan of config_environment_strategy.go.
use confii_go.Base.{ℕ, ◌+◌, Bool, true, ◌||◌, Option, none, some, List, [], ◌∷◌, ◌++◌}
use confii_go.Base.{Text, codes, has_prefix, if◌then◌else◌}
use confii_go.Base.Sort.{sort_texts}
use confii_go.Base.Dict.{Dict}
use confii_go.Value.{Fields}
use confii_go.Dictutil.Flatten.{flat_keys}
use confii_go.Envhandler.{is_environment_aware, resolve}
use confii_go.Sourcetrack.{Tracker, track_config}
use confii_go.Load.Strategy.{EnvironmentStrategy, named_files, EnvironmentConflictPolicy}
use confii_go.Load.Conflicts.{from_section, from_named_file, Writer, Conflict, add_writer}
use confii_go.Load.Turns.{
  Loader, ErrorPolicy, LoadError, sections_found, Warning, Cache, Slot, Turn, contributes, passes,
  stops, should_load, turn,
}

-- The options of the Config that a load reads, with its merger and the time of a record.
pub record LoadSettings : Type 0 where
  pub env : Text
  pub policy : ErrorPolicy
  pub strategy : EnvironmentStrategy
  pub conflict_policy : EnvironmentConflictPolicy
  pub merger : Fields → Fields → Option Fields
  pub now : Text → ℕ

pub record SourcePlanLayer : Type 0 where
  pub order : ℕ
  pub source : Text
  pub loader_type : Text
  pub role : Text
  pub layer_keys : List Text

pub record SourcePlan : Type 0 where
  pub environment : Text
  pub plan_strategy : EnvironmentStrategy
  pub plan_policy : EnvironmentConflictPolicy
  pub layers : List SourcePlanLayer
  pub conflicts : List Conflict

pub data Loading {ℓ} (A : Type ℓ) : Type ℓ where
  loaded : A → Loading A
  aborted : LoadError → Loading A

-- The variables of `loadSelected` that its loop changes, with the tracker of sources.
pub record Progress : Type 0 where
  pub configs : List (Option Fields)
  pub resolved_configs : List (Option Fields)
  pub uses_files : Bool
  pub plan_layers : List SourcePlanLayer
  pub writers : Dict (List Writer)
  pub saw_sectioned : Bool
  pub saw_named : Bool
  pub plan_error : Option LoadError
  pub tracker : Tracker

-- What the loop leaves: the caches of the loaders, the paths given to the tracker of files in their
-- order, the log records, and the variables.
pub record Turns : Type 0 where
  pub caches : List Cache
  pub tracked : List Text
  pub warnings : List Warning
  pub progress : Progress

unfoldable pub source_plan_role : Loader → Text
source_plan_role l = elim l.env_role [
  | some role ↦ role
  | none ↦ if has_prefix l.source (codes "environment:") then codes "runtime" else codes "flat"
]

unfoldable pub first_layer : ℕ → Loader → SourcePlanLayer
first_layer index l = record {
  order = index + 1;
  source = l.source;
  loader_type = l.type_name;
  role = source_plan_role l;
  layer_keys = [];
}

-- The calls of `fileTracker.Track` at one turn.
unfoldable pub track_paths : Bool → Slot → Cache → List Text
track_paths was_loaded s cache = if was_loaded then s.loader.source ∷ cache.dependencies else []

unfoldable pub add_turn : Cache → List Text → List Warning → Turns → Turns
add_turn cache tracked warnings r = record r {
  caches = cache ∷ r.caches;
  tracked = tracked ++ r.tracked;
  warnings = warnings ++ r.warnings;
}

unfoldable pub map_loading : (Turns → Turns) → Loading Turns → Loading Turns
map_loading f (loaded r) = loaded (f r)
map_loading f (aborted e) = aborted e

module _ (st : LoadSettings) where
  -- `recordPlanLayer` for a file of the active environment.
  unfoldable pub record_file_layer : ℕ → Loader → List Text → Progress → Progress
  record_file_layer index l layer_keys p = record p {
    plan_layers = p.plan_layers ++ (record (first_layer index l) { layer_keys = layer_keys } ∷ []);
    saw_named = true;
    writers =
        add_writer (record { family = from_named_file; source = l.source }) layer_keys p.writers;
  }

  -- The error of the strategy "named_files", of which the first one stays.
  unfoldable pub strategy_error : EnvironmentStrategy → Text → Option LoadError → Option LoadError
  strategy_error named_files source none = some (sections_found source)
  strategy_error s source e = e

  -- `recordPlanLayer` for a source with environment sections.
  unfoldable pub record_sectioned_layer : ℕ → Loader → List Text → Progress → Progress
  record_sectioned_layer index l layer_keys p = record p {
    plan_layers =
        p.plan_layers
        ++ (record (first_layer index l) { layer_keys = layer_keys; role = codes "sectioned" }
            ∷ []);
    saw_sectioned = true;
    plan_error = strategy_error st.strategy l.source p.plan_error;
    writers = add_writer (record { family = from_section; source = l.source }) layer_keys p.writers;
  }

  unfoldable pub record_flat_layer : ℕ → Loader → List Text → Progress → Progress
  record_flat_layer index l layer_keys p = record p {
    plan_layers = p.plan_layers ++ (record (first_layer index l) { layer_keys = layer_keys } ∷ []);
  }

  -- `recordPlanLayer`
  unfoldable pub record_plan_layer : ℕ → Loader → Fields → Fields → Progress → Progress
  record_plan_layer index l composed resolved p =
      let layer_keys = sort_texts (flat_keys (some resolved)) in
      if l.selected_env_file
      then record_file_layer index l layer_keys p
      else if is_environment_aware composed st.env
      then record_sectioned_layer index l layer_keys p
      else record_flat_layer index l layer_keys p

  unfoldable pub resolved_layer : Loader → Fields → Fields
  resolved_layer l composed = if l.selected_env_file then composed else (resolve composed st.env).0

  -- What a loader contributes to the variables.
  unfoldable pub contribute : ℕ → Loader → Fields → Progress → Progress
  contribute index l composed p =
      let resolved = resolved_layer l composed in
      let planned = record_plan_layer index l composed resolved p in
      record planned {
        tracker = track_config l.source l.type_name st.env l.positions st.now resolved [] p.tracker;
        configs = p.configs ++ (some composed ∷ []);
        resolved_configs = p.resolved_configs ++ (some resolved ∷ []);
        uses_files = p.uses_files || l.selected_env_file;
      }

  -- A loader without a contribution keeps its first layer in the plan.
  unfoldable pub pass_over : ℕ → Loader → Progress → Progress
  pass_over index l p = record p {
    plan_layers = p.plan_layers ++ (first_layer index l ∷ []);
    uses_files = p.uses_files || l.selected_env_file;
  }

  -- The rest of one turn. `continue` is the loop over the other loaders.
  unfoldable pub after_turn :
      (Progress → Loading Turns) → Bool → ℕ → Slot → Progress → Turn → List Warning → Loading Turns
  after_turn continue was_loaded index s p (stops e) warnings = aborted e
  after_turn continue was_loaded index s p (passes cache) warnings =
      map_loading (add_turn cache [] warnings) (continue (pass_over index s.loader p))
  after_turn continue was_loaded index s p (contributes layer cache) warnings =
      map_loading (add_turn cache (track_paths was_loaded s cache) warnings)
        (continue (contribute index s.loader layer p))

  -- The loop over the loaders.
  unfoldable pub run_turns : Option (Text → Bool) → ℕ → List Slot → Progress → Loading Turns
  run_turns selected index [] p =
      loaded (record { caches = []; tracked = []; warnings = []; progress = p })
  run_turns selected index (s ∷ slots) p =
      let (t, warnings) = turn st.policy selected s in
      after_turn (λ q. run_turns selected (index + 1) slots q)
        (should_load selected s.loader.source) index s p t warnings
