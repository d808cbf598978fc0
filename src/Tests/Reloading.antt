-- ===== src/Tests/Reloading.antt =====
-- Reloads of a small configuration.
use confii_go.Base.{
  ◌≡◌, refl, true, false, none, some, [], ◌∷◌, Text, codes, text_eq, contains_text, ℕ, zero, suc,
  has_prefix,
}
use confii_go.Base.Dict.{find}
use confii_go.Value.Maps.{lookup, insert, delete, copy_fields}
use confii_go.Compose.{compose_with_dependencies, compose, poll, apply_defaults}
use confii_go.Value.{end, field}
use confii_go.Sourcetrack.Files.{
  FileTracker, is_non_file_source, has_some_prefix, is_trackable, has_changed, compare_state,
}
use confii_go.Runtime.State.{made}
use confii_go.Load.Turns.{fetched, fetch_turn, compose_turn, copy_map, should_load}
use confii_go.Reload.Prepare.{
  Config, Served, World, quiet, default_opts, prepare_with, prepare_reload_candidate,
  select_sources, slots_of, slot_of, select_changed, wants_load, select_dependents, some_changed,
}
use confii_go.Reload.Fresh.{without_files, prepare_with-incremental}
use confii_go.Reload.Quiet.{prepare_reload_candidate-IsUnchanged}
use confii_go.Reload.Publish.{publish_source_candidate, snapshot_source_candidate}
use confii_go.Tests.Data.{host}
use confii_go.Tests.Composing.{world}
use confii_go.Tests.Mutations.{settings, start}
use confii_go.Tests.Loading.{
  loader, load_settings, one_key, before, no_sources, first_load, first_loaded, first_caches,
  caches_kept, disk_with, seen,
}

-- The first source keeps its content, and the second one has some now.
abbrev serve : ℕ → Served
serve zero = record {
  ended_before = false;
  ended_after = false;
  data_read = fetched one_key;
  surroundings = world;
}
serve (suc n) = record {
  ended_before = false;
  ended_after = false;
  data_read = fetched (field (codes "b") host end);
  surroundings = world;
}

abbrev surroundings : Text → World
surroundings content = record {
  to_lower = λ s. s;
  disk = disk_with content;
  disk_after = disk_with content;
  serve = serve;
  canceled = false;
  admit = λ m. none;
  materialize = λ m. made m;
  validate_on_load = false;
  validate_candidate = λ m b. none;
}

abbrev both_files : FileTracker
both_files = record {
  files = (codes "a.yaml", seen (codes "1")) ∷ (codes "b.yaml", seen (codes "1")) ∷ [];
  untrackable = [];
}

abbrev running : Config
running = record {
  live = start;
  loaders = loader (codes "a.yaml") false ∷ loader (codes "b.yaml") false ∷ [];
  caches = first_caches;
  files = both_files;
  source_plan = first_load.result.source_plan;
}

-- The second file has another content than the tracker holds.
abbrev behind : Config
behind = record running {
  files = record {
    files = (codes "a.yaml", seen (codes "1")) ∷ (codes "b.yaml", seen (codes "0")) ∷ [];
    untrackable = [];
  };
}

prepare_with-incremental_example :
    without_files (
      prepare_with
        (surroundings (codes "1"))
        settings
        load_settings
        (record default_opts { incremental = true })
        behind)
    ≡ without_files (
        prepare_with
          (surroundings (codes "1"))
          settings
          load_settings
          (record default_opts { incremental = false })
          behind)
unfolding fetch_turn compose_turn compose_with_dependencies compose poll lookup apply_defaults
    copy_fields insert text_eq delete copy_map should_load slots_of slot_of contains_text
    select_sources select_changed wants_load is_trackable has_changed compare_state
    select_dependents some_changed is_non_file_source has_some_prefix has_prefix find
prepare_with-incremental_example =
    prepare_with-incremental (surroundings (codes "1")) settings load_settings default_opts behind
      before [] no_sources first_load (codes "b.yaml") [] behind.files refl first_loaded caches_kept
      (refl, (tt, tt)) (λ e. refl, (λ e. cc, tt))

abbrev alone : Config
alone = record running {
  loaders = loader (codes "a.yaml") false ∷ [];
  caches = record { layer = some one_key; dependencies = codes "b.yaml" ∷ [] } ∷ [];
}

prepare_reload_candidate-IsUnchanged_example :
    prepare_reload_candidate (surroundings (codes "1")) settings load_settings [] alone ≡ quiet
unfolding is_non_file_source has_some_prefix has_prefix text_eq find contains_text
prepare_reload_candidate-IsUnchanged_example =
    prepare_reload_candidate-IsUnchanged (surroundings (codes "1")) settings load_settings alone
      ((refl, refl, (seen (codes "1"), seen (codes "1"), refl, refl, refl)), tt)
      (((refl, refl, (seen (codes "1"), seen (codes "1"), refl, refl, refl)), tt), tt)

abbrev reloaded : Config
reloaded = publish_source_candidate (snapshot_source_candidate running) running
