-- ===== src/Reload/Prepare.antt =====
-- config_reload.go: the choice of the sources to load again, and the candidate of a reload.
use confii_go.Base.{ℕ, ◌+◌, Bool, true, false, not, Option, none, some, List, [], ◌∷◌}
use confii_go.Base.{Text, contains_text, if◌then◌else◌}
use confii_go.Value.{Fields}
use confii_go.Compose.{Environment}
use confii_go.Sourcetrack.{restore}
use confii_go.Sourcetrack.Files.{FileTracker, Disk, is_trackable, has_changed, track_all}
use confii_go.Runtime.State.{Live, Settings, RuntimeError, Attempt, made, refused}
use confii_go.Runtime.Refresh.{materialize_effective_config}
use confii_go.Load.Turns.{Loader, Fetched, LoadError, Cache, Slot, no_cache}
use confii_go.Load.Plan.{LoadSettings, SourcePlan, Loading, loaded, aborted}
use confii_go.Load.Selected.{Loaded, load_selected}

-- The fields of Config that its sources fill, with those of Runtime.
pub record Config : Type 0 where
  pub live : Live
  pub loaders : List Loader
  pub caches : List Cache
  pub files : FileTracker
  pub source_plan : SourcePlan

-- reloadOpts
pub record ReloadOpts : Type 0 where
  pub validate : Option Bool
  pub dry_run : Bool
  pub incremental : Bool

-- A ReloadOption: none is nil, and a call that gives none panics.
abbrev pub ReloadOption : Type 0
ReloadOption = Option (ReloadOpts → Option ReloadOpts)

pub data SourceError : Type 0 where
  nil_option : ℕ → SourceError
  option_panicked : ℕ → SourceError
  load_refused : LoadError → SourceError
  runtime_refused : RuntimeError → SourceError
  unmaterialized_sources : RuntimeError → SourceError
  watch_failed : Text → SourceError

-- How a preparation ends: without a publication, with a candidate to publish, or with an error.
pub data Prepared : Type 0 where
  quiet : Prepared
  publishes : Config → Prepared
  prepare_failed : SourceError → Prepared

pub data Options : Type 0 where
  applied : ReloadOpts → Options
  bad : SourceError → Options

-- What the outside holds ready for the turn of a loader.
pub record Served : Type 0 where
  pub ended_before : Bool
  pub ended_after : Bool
  pub data_read : Fetched
  pub surroundings : Environment

-- The surroundings of a preparation. `serve` is given the place of a loader, `disk` is read by the choice
-- of the sources, and `disk_after` after the load.
pub record World : Type 0 where
  pub to_lower : Text → Text
  pub disk : Disk
  pub disk_after : Disk
  pub serve : ℕ → Served
  pub canceled : Bool
  pub admit : Option Fields → Option RuntimeError
  pub materialize : Option Fields → Attempt (Option Fields)
  pub validate_on_load : Bool
  pub validate_candidate : Option Fields → Bool → Option RuntimeError

unfoldable pub slot_of : Served → Loader → Slot
slot_of served l = record {
  loader = l;
  cache = no_cache;
  ended_before = served.ended_before;
  ended_after = served.ended_after;
  data_read = served.data_read;
  surroundings = served.surroundings;
}

unfoldable pub slots_of : (ℕ → Served) → ℕ → List Loader → List Slot
slots_of serve index [] = []
slots_of serve index (l ∷ loaders) = slot_of (serve index) l ∷ slots_of serve (index + 1) loaders

unfoldable pub apply_options : ℕ → List ReloadOption → ReloadOpts → Options
apply_options index [] opts = applied opts
apply_options index (none ∷ options) opts = bad (nil_option index)
apply_options index (some option ∷ options) opts = elim (option opts) [
  | none ↦ bad (option_panicked index)
  | some next ↦ apply_options (index + 1) options next
]

abbrev pub default_opts : ReloadOpts
default_opts = record { validate = none; dry_run = false; incremental = true }

-- The paths and the state of a loop over sources: the selected ones, and the tracker of files.
abbrev pub Selection : Type 0
Selection = List Text × FileTracker

module _ (w : World) where
  -- `!IsTrackable(source) || HasChanged(source)`
  unfoldable pub wants_load : Text → FileTracker → Bool × FileTracker
  wants_load source t =
      if not (is_trackable w.to_lower source t)
      then (true, t)
      else has_changed w.to_lower w.disk source t

  -- The loop over the loaders.
  unfoldable pub select_changed : List Loader → Selection → Selection
  select_changed [] chosen = chosen
  select_changed (l ∷ loaders) (selected, t) =
      let (wanted, t1) = wants_load l.source t in
      select_changed loaders (if wanted then l.source ∷ selected else selected, t1)

  -- The loop over the dependencies of one loader, which stops at the first change.
  unfoldable pub some_changed : List Text → FileTracker → Bool × FileTracker
  some_changed [] t = (false, t)
  some_changed (d ∷ ds) t =
      let (changed, t1) = has_changed w.to_lower w.disk d t in
      if changed then (true, t1) else some_changed ds t1

  -- The loop over `loaderDependencies`, which are as many as the loaders.
  unfoldable pub select_dependents : List Loader → List Cache → Selection → Selection
  select_dependents [] caches chosen = chosen
  select_dependents (l ∷ loaders) [] chosen = chosen
  select_dependents (l ∷ loaders) (c ∷ caches) (selected, t) =
      let (changed, t1) = some_changed c.dependencies t in
      select_dependents loaders caches (if changed then l.source ∷ selected else selected, t1)

  unfoldable pub select_sources : Config → Selection
  select_sources c = select_dependents c.loaders c.caches (select_changed c.loaders ([], c.files))

  -- The candidate after the load.
  unfoldable pub with_load : Loaded → Config → Config
  with_load l c = record c {
    live = record c.live {
      views = record c.live.views {
        env_config = some l.result.env_config;
        merged = some l.result.merged;
      };
      tracker = l.result.tracker;
    };
    caches = l.caches;
    files = track_all w.to_lower w.disk_after l.tracked c.files;
    source_plan = l.result.source_plan;
  }

  -- The validation and the dry run.
  unfoldable pub admit_candidate : ReloadOpts → Config → Prepared
  admit_candidate opts c =
      elim (w.validate_candidate c.live.views.env_config
        (elim opts.validate [ none ↦ w.validate_on_load | some v ↦ v ])) [
          | some e ↦ prepare_failed (runtime_refused e)
          | none ↦ if opts.dry_run then quiet else publishes c
        ]

  unfoldable pub materialize_candidate : Settings → (Config → Prepared) → Config → Prepared
  materialize_candidate st next c =
      elim (materialize_effective_config st w.admit w.materialize w.canceled c.live) [
        | refused e ↦ prepare_failed (unmaterialized_sources e)
        | made live ↦ next (record c { live = live })
      ]

module _ (w : World) (st : Settings) (ls : LoadSettings) where
  -- The load, on a tracker of sources that is cleared first.
  unfoldable pub load_candidate : Option (Text → Bool) → Config → Loading Loaded
  load_candidate selected c =
      load_selected ls selected c.caches (slots_of w.serve 0 c.loaders) (restore [] c.live.tracker)

  -- The part of `prepareReloadCandidate` after the load.
  unfoldable pub after_load : ReloadOpts → Config → Loading Loaded → Prepared
  after_load opts c (aborted e) = prepare_failed (load_refused e)
  after_load opts c (loaded l) =
      materialize_candidate w st (admit_candidate w opts) (with_load w l c)

  unfoldable pub rebuild : ReloadOpts → Option (Text → Bool) → Config → Prepared
  rebuild opts selected c = after_load opts c (load_candidate selected c)

  unfoldable pub reload_selected : ReloadOpts → Config → Selection → Prepared
  reload_selected opts c ([], t) = quiet
  reload_selected opts c (s ∷ selected, t) =
      rebuild opts (some (contains_text (s ∷ selected))) (record c { files = t })

  unfoldable pub prepare_with : ReloadOpts → Config → Prepared
  prepare_with opts c =
      if opts.incremental then reload_selected opts c (select_sources w c) else rebuild opts none c

  unfoldable pub prepare_reload_candidate : List ReloadOption → Config → Prepared
  prepare_reload_candidate options c = elim (apply_options 0 options default_opts) [
    | bad e ↦ prepare_failed e
    | applied opts ↦ prepare_with opts c
  ]
