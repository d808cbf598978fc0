-- ===== src/Load/Turns.antt =====
-- config_load.go: the turn of one loader in loadSelected, up to its contribution.
use confii_go.Base.{Bool, true, false, ◌||◌, Option, none, some, List, [], ◌∷◌}
use confii_go.Base.{Text, if◌then◌else◌}
use confii_go.Base.Int.{ℤ}
use confii_go.Value.{Value, Fields, mapping, nil_mapping, end, field}
use confii_go.Compose.{
  ComposeError, done, failed, is_canceled, in_include, Environment, compose_with_dependencies,
}
use confii_go.Load.Conflicts.{Conflict}

-- What the code asks a Loader. `env_role` is its `environmentFileRole`, if it has that method.
pub record Loader : Type 0 where
  pub source : Text
  pub type_name : Text
  pub selected_env_file : Bool
  pub env_role : Option Text
  pub positions : Text → ℤ

pub data ErrorPolicy : Type 0 where
  raise : ErrorPolicy
  warn : ErrorPolicy
  ignore : ErrorPolicy
  unknown_policy : ErrorPolicy

-- What `l.Load` returns. The flag says that the error is one of the context.
pub data Fetched : Type 0 where
  fetch_failed : Bool → Text → Fetched
  no_data : Fetched
  fetched : Fields → Fetched

-- The errors of a load. `merge_panicked` is a run-time panic of the merger.
pub data LoadError : Type 0 where
  canceled : LoadError
  loader_failed : Text → LoadError
  composition_failed : ComposeError → LoadError
  sections_found : Text → LoadError
  hybrid_incomplete : LoadError
  conflicting : List Conflict → LoadError
  merge_panicked : LoadError

-- A log record: its text, and the source that it names.
pub record Warning : Type 0 where
  pub about : Text
  pub cause : LoadError

-- An entry of `loaderLayers` with that of `loaderDependencies`.
pub record Cache : Type 0 where
  pub layer : Option Fields
  pub dependencies : List Text

-- A loader with its cache, and what the outside holds ready for its turn: the context at the head of
-- the loop and after an error, the loader's data, and the surroundings of the composition.
pub record Slot : Type 0 where
  pub loader : Loader
  pub cache : Cache
  pub ended_before : Bool
  pub ended_after : Bool
  pub data_read : Fetched
  pub surroundings : Environment

-- A contribution of a layer with what the cache keeps, none with what the cache keeps, or an error.
pub data Turn : Type 0 where
  contributes : Fields → Cache → Turn
  passes : Cache → Turn
  stops : LoadError → Turn

-- copyMap: a copy in which a nil map below the top is a made one.
unfoldable mutual
  pub copy_map : Fields → Fields
  copy_map end = end
  copy_map (field k v rest) = field k (copy_value v) (copy_map rest)

  pub copy_value : Value → Value
  copy_value (mapping m) = mapping (copy_map m)
  copy_value nil_mapping = mapping end
  copy_value v = v

-- `errors.Is(err, context.Canceled)`, through the wrappers of the composition.
unfoldable pub is_cancellation : ComposeError → Bool
is_cancellation is_canceled = true
is_cancellation (in_include p e) = is_cancellation e
is_cancellation e = false

-- The switch on `OnError`: what a recovered error gives, and the log record.
unfoldable pub on_error : ErrorPolicy → Text → LoadError → Turn → Turn × List Warning
on_error raise source e recovered = (stops e, [])
on_error warn source e recovered = (recovered, record { about = source; cause = e } ∷ [])
on_error ignore source e recovered = (recovered, [])
on_error unknown_policy source e recovered = (stops e, [])

abbrev pub no_cache : Cache
no_cache = record { layer = none; dependencies = [] }

abbrev pub caching : Fields → List Text → Turn
caching composed dependencies =
    contributes composed (record { layer = some (copy_map composed); dependencies = dependencies })

-- The composition of what a loader returned.
unfoldable pub compose_turn : ErrorPolicy → Slot → Fields → Turn × List Warning
compose_turn policy s fetched_data =
    let (r, dependencies) = compose_with_dependencies s.surroundings fetched_data s.loader.source in
    elim r [
      | done composed ↦ (caching composed dependencies, [])
      | failed e ↦
          if s.ended_after || is_cancellation e
          then (stops canceled, [])
          else on_error policy s.loader.source (composition_failed e) (caching fetched_data [])
    ]

unfoldable pub fetch_turn : ErrorPolicy → Slot → Turn × List Warning
fetch_turn policy s = elim s.data_read [
  | fetch_failed is_context_error message ↦
      if s.ended_after || is_context_error
      then (stops canceled, [])
      else on_error policy s.loader.source (loader_failed message) (passes no_cache)
  | no_data ↦ (passes no_cache, [])
  | fetched d ↦ compose_turn policy s d
]

unfoldable pub cached_turn : Slot → Turn
cached_turn s = elim s.cache.layer [
  | none ↦ passes s.cache
  | some m ↦ contributes (copy_map m) s.cache
]

-- `selected == nil || selected[l.Source()]`
unfoldable pub should_load : Option (Text → Bool) → Text → Bool
should_load none source = true
should_load (some selected) source = selected source

unfoldable pub turn : ErrorPolicy → Option (Text → Bool) → Slot → Turn × List Warning
turn policy selected s =
    if s.ended_before
    then (stops canceled, [])
    else if should_load selected s.loader.source
    then fetch_turn policy s
    else (cached_turn s, [])
