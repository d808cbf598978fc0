-- ===== src/Tests/Loading.antt =====
-- Loads and reloads of a few sources.
use confii_go.Base.{
  ◌≡◌, refl, Bool, true, false, Option, none, some, List, [], ◌∷◌, Text, codes, text_eq,
  contains_text, ◌&&◌,
}
use confii_go.Base.Sort.{sort_texts, insert_text}
use confii_go.Base.Int.{pos}
use confii_go.Base.Dict.{find, put}
use confii_go.Value.{Fields, mapping, end, field}
use confii_go.Value.Maps.{lookup, insert, delete, copy_fields}
use confii_go.Dictutil.{deep_merge, merge_into, merge_value}
use confii_go.Dictutil.Flatten.{flat_keys}
use confii_go.Sourcetrack.{Tracker}
use confii_go.Sourcetrack.Files.{FileState, Disk}
use confii_go.Load.Strategy.{auto, hybrid, conflict_error, conflict_warn}
use confii_go.Load.Turns.{
  Loader, Fetched, fetched, no_data, Slot, Cache, raise, no_cache, fetch_turn, compose_turn, turn,
  should_load, copy_map,
}
use confii_go.Load.Plan.{
  LoadSettings, Loading, loaded, aborted, run_turns, after_turn, map_loading, add_turn, contribute,
  record_plan_layer, record_flat_layer, resolved_layer, pass_over, record_sectioned_layer,
  record_file_layer, strategy_error,
}
use confii_go.Load.Selected.{
  Loaded, load_selected, load_slots, recache, after_loop, finish_load, merged_env, conclude,
  check_hybrid, with_result, first_progress, on_conflicts,
}
use confii_go.Merge.{merge_all, merge_rest}
use confii_go.Compose.{compose_with_dependencies, compose, poll, apply_defaults}
use confii_go.Load.Incremental.{bare}
use confii_go.Load.Conflicts.{
  add_writer, mixed_environment_conflicts, add_conflict, has_sectioned, has_named, writers_of,
  insert_conflict,
}
use confii_go.Load.Mixed.{conflict_keys}
use confii_go.Load.Writers.{contributions, some_section_writes, some_file_writes}
use confii_go.Load.Hybrid.{load_slots-conflicts, load_slots-conflict_error}
use confii_go.Load.Repeated.{load_selected-Unchanged}
use confii_go.Tests.Data.{host}
use confii_go.Tests.Composing.{world}

abbrev pub loader : Text → Bool → Loader
loader source named = record {
  source = source;
  type_name = codes "File";
  selected_env_file = named;
  env_role = none;
  positions = λ k. pos 0;
}

abbrev pub serving : Loader → Fetched → Slot
serving l data_read = record {
  loader = l;
  cache = no_cache;
  ended_before = false;
  ended_after = false;
  data_read = data_read;
  surroundings = world;
}

abbrev pub load_settings : LoadSettings
load_settings = record {
  env = codes "prod";
  policy = raise;
  strategy = auto;
  conflict_policy = conflict_error;
  merger = λ b o. some (deep_merge b o);
  now = λ k. 0;
}

abbrev pub one_key : Fields
one_key = field (codes "a") host end

abbrev pub steady : Slot
steady = serving (loader (codes "a.yaml") false) (fetched one_key)

-- The second source has no data at first.
abbrev pub before : List Slot
before = steady ∷ serving (loader (codes "b.yaml") false) no_data ∷ []

abbrev pub after : List Slot
after = steady ∷ serving (loader (codes "b.yaml") false) (fetched (field (codes "b") host end)) ∷ []

abbrev has_loaded : Loading Loaded → Bool
has_loaded (loaded l) = true
has_loaded (aborted e) = false

abbrev pub loaded_or : Loaded → Loading Loaded → Loaded
loaded_or other (loaded l) = l
loaded_or other (aborted e) = other

pub loaded_or-loaded :
    (other : Loaded) (x : Loading Loaded) → has_loaded x ≡ true → x ≡ loaded (loaded_or other x)
loaded_or-loaded other (loaded l) h = refl
loaded_or-loaded other (aborted e) h = cc

abbrev pub nothing_loaded : Loaded
nothing_loaded = record {
  result = record {
    merged = end;
    env_config = end;
    tracker = record { sources = []; debug_mode = false };
    source_plan = record {
      environment = [];
      plan_strategy = auto;
      plan_policy = conflict_error;
      layers = [];
      conflicts = [];
    };
    conflict_warning = none;
  };
  caches = [];
  tracked = [];
  warnings = [];
}

abbrev pub no_sources : Tracker
no_sources = record { sources = []; debug_mode = false }

abbrev pub first_load : Loaded
first_load = loaded_or nothing_loaded (load_selected load_settings none [] before no_sources)

pub first_loaded : load_selected load_settings none [] before no_sources ≡ loaded first_load
unfolding load_selected load_slots recache run_turns turn should_load fetch_turn compose_turn
    compose_with_dependencies compose poll lookup apply_defaults copy_fields insert text_eq delete
    after_turn map_loading add_turn contribute record_plan_layer record_flat_layer resolved_layer
    pass_over after_loop finish_load merge_all merge_rest merged_env conclude check_hybrid
    with_result first_progress confii_go.Envhandler.resolve
    confii_go.Envhandler.is_environment_aware confii_go.Envhandler.is_env_mode
    confii_go.Envhandler.has_other_map
first_loaded = loaded_or-loaded nothing_loaded _ refl

abbrev pub first_caches : List Cache
first_caches = record { layer = some one_key; dependencies = [] } ∷ no_cache ∷ []

pub caches_kept : first_caches ≡ first_load.caches
unfolding load_selected load_slots recache run_turns turn should_load fetch_turn compose_turn
    compose_with_dependencies compose poll lookup apply_defaults copy_fields insert text_eq delete
    after_turn map_loading add_turn contribute record_plan_layer record_flat_layer resolved_layer
    pass_over after_loop finish_load merge_all merge_rest merged_env conclude check_hybrid
    with_result first_progress confii_go.Envhandler.resolve
    confii_go.Envhandler.is_environment_aware confii_go.Envhandler.is_env_mode
    confii_go.Envhandler.has_other_map copy_map
caches_kept = refl

-- Only the second source is read again.
abbrev pub second_only : Option (Text → Bool)
second_only = some (text_eq (codes "b.yaml"))

load_selected-Unchanged_example :
    bare (load_selected load_settings second_only first_load.caches after no_sources)
    ≡ bare (load_selected load_settings none [] after no_sources)
unfolding fetch_turn compose_turn compose_with_dependencies compose poll lookup apply_defaults
    copy_fields insert text_eq delete copy_map should_load
load_selected-Unchanged_example =
    load_selected-Unchanged load_settings second_only [] [] before after no_sources no_sources
      first_load first_loaded (refl, (tt, tt)) (λ e. refl, (λ e. cc, tt))

-- A source with a section for the environment, and a file of the environment, with the same key.
abbrev sources_in_conflict : List Slot
sources_in_conflict =
    serving (loader (codes "s.yaml") false) (fetched (field (codes "prod") (mapping one_key) end))
    ∷ serving (loader (codes "prod.yaml") true) (fetched one_key)
    ∷ []

abbrev tolerant : LoadSettings
tolerant = record load_settings { strategy = hybrid; conflict_policy = conflict_warn }

abbrev tolerated : Loaded
tolerated = loaded_or nothing_loaded (load_slots tolerant none sources_in_conflict no_sources)

tolerated_loaded : load_slots tolerant none sources_in_conflict no_sources ≡ loaded tolerated
unfolding load_slots run_turns turn should_load fetch_turn compose_turn compose_with_dependencies
    compose poll lookup apply_defaults copy_fields insert text_eq delete after_turn map_loading
    add_turn contribute record_plan_layer record_sectioned_layer record_file_layer resolved_layer
    strategy_error add_writer after_loop finish_load merge_all merge_rest merged_env conclude
    check_hybrid with_result first_progress confii_go.Envhandler.resolve
    confii_go.Envhandler.is_environment_aware confii_go.Envhandler.is_env_mode on_conflicts
    mixed_environment_conflicts add_conflict has_sectioned has_named writers_of flat_keys sort_texts
    insert_text put find confii_go.Configmap.keys confii_go.Configmap.collect
    confii_go.Configmap.collect_value confii_go.Configmap.under_prefix insert_conflict deep_merge
    merge_into merge_value
tolerated_loaded = loaded_or-loaded nothing_loaded _ refl

load_slots-conflicts_example :
    contains_text (conflict_keys tolerated.result.source_plan.conflicts) (codes "a") ≡ (
      some_section_writes tolerant (codes "a") (contributions raise none sources_in_conflict)
      && some_file_writes tolerant (codes "a") (contributions raise none sources_in_conflict))
load_slots-conflicts_example =
    load_slots-conflicts tolerant none sources_in_conflict no_sources tolerated (codes "a")
      tolerated_loaded refl

-- Without the key in both, the policy "error" lets the load succeed.
abbrev apart : List Slot
apart =
    serving (loader (codes "s.yaml") false) (fetched (field (codes "prod") (mapping one_key) end))
    ∷ serving (loader (codes "prod.yaml") true) (fetched (field (codes "b") host end))
    ∷ []

abbrev strict : LoadSettings
strict = record load_settings { strategy = hybrid }

abbrev accepted : Loaded
accepted = loaded_or nothing_loaded (load_slots strict none apart no_sources)

accepted_loaded : load_slots strict none apart no_sources ≡ loaded accepted
unfolding load_slots run_turns turn should_load fetch_turn compose_turn compose_with_dependencies
    compose poll lookup apply_defaults copy_fields insert text_eq delete after_turn map_loading
    add_turn contribute record_plan_layer record_sectioned_layer record_file_layer resolved_layer
    strategy_error add_writer after_loop finish_load merge_all merge_rest merged_env conclude
    check_hybrid with_result first_progress confii_go.Envhandler.resolve
    confii_go.Envhandler.is_environment_aware confii_go.Envhandler.is_env_mode on_conflicts
    mixed_environment_conflicts add_conflict has_sectioned has_named writers_of flat_keys sort_texts
    insert_text put find confii_go.Configmap.keys confii_go.Configmap.collect
    confii_go.Configmap.collect_value confii_go.Configmap.under_prefix insert_conflict deep_merge
    merge_into merge_value
accepted_loaded = loaded_or-loaded nothing_loaded _ refl

load_slots-conflict_error_example :
    (some_section_writes strict (codes "a") (contributions raise none apart)
      && some_file_writes strict (codes "a") (contributions raise none apart))
    ≡ false
load_slots-conflict_error_example =
    load_slots-conflict_error strict none apart no_sources accepted (codes "a") accepted_loaded refl
      refl

abbrev pub seen : Text → FileState
seen h = record { mtime = pos 1; hash = h }

abbrev pub disk_with : Text → Disk
disk_with h path = some (seen h)
