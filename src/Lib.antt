-- ===== src/Lib.antt =====
-- A verification library for confii-go, a library that loads configurations from several sources,
-- merges them and reads them by dotted paths. It models the part that computes on configurations.
--
-- A configuration is nested maps from strings to values. The merger combines the maps of all
-- sources from the lowest to the highest precedence, by a strategy that may differ from path to
-- path; the environment handler then takes the section of one environment, merged onto the default
-- one, with the recursive merge of internal/dictutil; the result is read and written by dotted
-- paths, where registered hooks may change a value on its way to the reader; and two configurations
-- can be compared and their differences redacted. The live configuration can be changed by Set, by
-- temporary overrides that may overlap, by a rollback to a stored version and by a refresh of its
-- secrets. A tracker records which source each value came from. Before all that, a file is composed
-- with its defaults and the files it includes, and what each loader gave is kept as a layer: a reload
-- reads only the sources that have changed, and builds the configuration anew from all layers.
--
-- The files:
--   Value: Go's `any` as the decoders produce it, and map[string]any as the entries in the order of
--     one iteration. Value/Maps has lookups, writes and copies; Value/Equality has `==` on two values
--     of type any, where `none` is the run-time panic.
--   Configmap: configmap/path.go. Get, Has, Set and Keys are `get`, `has`, `set` and `keys`; `set`
--     returns the map after the call and the error, if any. A nil map is the map `none`.
--   Dictutil: internal/dictutil/merge.go. DeepMerge and ShallowMerge are `deep_merge`,
--     `shallow_merge`. Dictutil/Flatten: internal/dictutil/flatten.go.
--   Merge, Merge/Resolve, Merge/Intersect: merge/merge.go and merge/strategy.go. Merge, mergeAt,
--     resolveStrategy, applyStrategy and the two intersections have their own definitions; `none`
--     stands for a panic of `==`. A strategy map is a list of entries.
--   Envhandler: envhandler/handler.go. Resolve returns the configuration, and the section names of
--     its warning. os.Getenv is a parameter.
--   Diff: diff/differ.go. `json.Marshal` is a parameter. Diffs are a tree in the order of the slices.
--   Sourcetrack: sourcetrack/tracker.go. trackValue and TrackConfigWithPositions are `track_value` and
--     `track_config`, which return the tracker after the call. The clock and the map of lines are
--     parameters; `reflect.DeepEqual` is `deep_equal` of Value/Equality.
--   Compose: compose/composer.go. `compose`, `process_defaults`, `process_includes` and `load_file` are
--     the functions of these names. A traversal holds the visited files, the dependencies and the
--     number of polls of the context; it comes back with the result or the error. The recursion is on
--     the levels that are left of maxDepth, so it ends where the source's test of the depth ends it.
--     The merger, the file system, the decoder, the rules of filepath, strings.TrimSpace and the
--     context are the parameters of the record Environment.
--   Hook: hook/processor.go. The registrations return the processor, or `none` for the panic on a nil
--     hook; `process` is Process. A hook is a function that takes and returns the world.
--   Secretref: internal/secretref/reference.go. `match_reference` is the regular expression at a place of a
--     text; Parse, Find, Contains, Validate and String are `parse_reference`, `find_references`,
--     `contains_reference`, `validate` and `write_reference`.
--   Multi: secret/multi.go. `get_secret`, `set_secret`, `delete_secret` and `list_secrets` are the methods of
--     MultiStore, on stores that take and return the world; `unwrap` is Unwrap of its error.
--   Versions: observe/version.go. `save_version`, `reconfigure`, `get_version`, `list_versions`, `latest_version`
--     and `diff_versions` are the methods of VersionManager, `evict` and `scan_disk` its helpers.
--   Materialize: config_materialize.go. `materialize_fields` and `materialize_items` are the recursions of
--     applySecretHookRecursive and applySecretHookToSlice, over `process` of Hook. Materialize/Workers is
--     applySecretHookMapParallel, on the order in which the jobs end and the caller's context is
--     canceled, with the choice between the two ways. A map in a list takes the sequential way, as it
--     does with a SecretResolutionConcurrency of at most 1.
--   Load: config_load.go and config_environment_strategy.go. `load_selected` is loadSelected: `turn` is what
--     one loader does in its loop, `contribute` what its layer adds, and `finish_load` the part after the
--     loop. Load/Strategy is resolveEnvironmentStrategy, Load/Conflicts is mixedEnvironmentConflicts.
--     What the outside holds ready for a loader stands in its `Slot`, so a load is a function.
--   Reload: config_reload.go, config_extend.go and config_source_transaction.go.
--     `prepare_reload_candidate` and `prepare_extend_candidate` are the functions of these names, on a
--     candidate, and `source_transaction_attempt` publishes it. Sourcetrack/Files is
--     sourcetrack/filetracker.go, with the disk as a function.
--   Dotenv: internal/dotenvparse/parse.go. `logical_records` and `admit_records` are the split into records
--     and the loop of Parse over them; the parser godotenv is a parameter.
--   Typecoerce: internal/typecoerce/parse.go. ParseScalar is `parse_scalar`.
--   Access: config_access.go. Get, Has, Keys, GetInt and GetBool are `get_with_context`, `has_path`,
--     `paths_under`, `get_int` and `get_bool`; a float64 stands by its bits.
--   Runtime: the live state of a Config. Runtime/State has the fields (config.go), Freeze and Close;
--     Runtime/Candidates is config_runtime_mutation.go; Runtime/Sets is Set (config_mutation.go);
--     Runtime/Overrides and Runtime/Restores are Override and the function that it returns
--     (config_override.go); Runtime/Rollback is RollbackToVersion (config_observe.go); Runtime/Sensitive
--     is config_sensitive.go, and Runtime/Refresh is RefreshSecrets (config_materialize.go). A mutation
--     reads the state, works on a copy without the lock, and publishes it if the revision is still the
--     same; its definitions are these sections, and a round takes the states that the read lock and the
--     write lock find. Runtime/Atomic has the steps of other operations in between. The other files of
--     Runtime hold proofs.
--   Base: texts as lists of bytes, strings.Split, strings.Join, sort.Strings, integers and lists.
--   Tests: runs on concrete inputs.
--
-- Recursion is structural everywhere, on the maps, the path segments or the levels of composition,
-- and the loop of Set runs on the list of the rounds that other operations leave it. The only fuel is that of
-- the digits of a number, which is the number itself; their round trip shows that it is enough.
-- Integers of a configuration are unbounded, but for the reads of a text or a float as an int; so are the
-- counters of the tracker and of Summary. The revisions of the hooks and of
-- the live state and the identifiers of override frames wrap at 2^64. Maps have no
-- aliasing and no cycles, so the defensive copies of the source are the maps themselves and the
-- visiting set of collectKeys is left out. `IsProperMap` says that no map, at any depth, has a key
-- twice, which holds of every Go map.
--
-- Not modelled: loaders, decoders, encoders, the secret stores themselves and the command line, which
-- are I/O or calls of third-party code; the delivery of metrics, events and callbacks after a commit; and the
-- parts of the library that are yet to follow: metrics and events, the built-in hooks, and the
-- options and the construction of the configuration object, and its decoding into structs.
pub mod Base
pub mod Value
pub mod Configmap
pub mod Dictutil
pub mod Materialize
pub mod Merge
pub mod Envhandler
pub mod Load
pub mod Reload
pub mod Dotenv
pub mod Typecoerce
pub mod Access
pub mod Diff
pub mod Sourcetrack
pub mod Compose
pub mod Hook
pub mod Secretref
pub mod Multi
pub mod Versions
pub mod Runtime
mod Tests
