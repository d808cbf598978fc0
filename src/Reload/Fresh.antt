-- ===== src/Reload/Fresh.antt =====
-- A reload of some of the sources against a reload of all of them.
use mathlib.Core.Path.{subst}
use confii_go.Base.{
  Bool, true, false, Option, none, some, List, [], ◌∷◌, ◌≡◌, refl, ap, sym, ◌∙◌, All,
}
use confii_go.Base.{Text, contains_text, if◌then◌else◌}
use confii_go.Sourcetrack.{Tracker, restore}
use confii_go.Sourcetrack.Files.{FileTracker, new_file_tracker, track_all}
use confii_go.Runtime.State.{Live, Settings, RuntimeError, Attempt, made, refused}
use confii_go.Runtime.Refresh.{materialize_effective_config}
use confii_go.Load.Turns.{Cache, Slot}
use confii_go.Load.Plan.{LoadSettings, Loading, loaded, aborted}
use confii_go.Load.Selected.{Loaded, load_selected}
use confii_go.Load.Incremental.{bare}
use confii_go.Load.Settled.{IsMade}
use confii_go.Load.Repeated.{Unchanged, load_selected-Unchanged}
use confii_go.Reload.Prepare.{
  Config, ReloadOpts, Prepared, quiet, publishes, prepare_failed, World, runtime_refused,
  unmaterialized_sources, slots_of, select_sources, with_load, admit_candidate,
  materialize_candidate, load_candidate, after_load, rebuild, reload_selected, prepare_with,
}

-- A candidate without its tracker of files.
abbrev pub without_files : Prepared → Prepared
without_files quiet = quiet
without_files (publishes c) = publishes (record c { files = new_file_tracker })
without_files (prepare_failed e) = prepare_failed e

module _ (w : World) (st : Settings) (ls : LoadSettings) where
  admit_candidate-files :
      (opts : ReloadOpts) (c : Config) (t : FileTracker)
      → without_files (admit_candidate w opts c)
        ≡ without_files (admit_candidate w opts (record c { files = t }))
  unfolding admit_candidate
  admit_candidate-files opts c t =
      admitted
        (w.validate_candidate c.live.views.env_config
          (elim opts.validate [ none ↦ w.validate_on_load | some v ↦ v ]))
        opts.dry_run
    where
      admitted :
          (o : Option RuntimeError) (dry : Bool)
          → without_files (elim o [
            | some e ↦ prepare_failed (runtime_refused e)
            | none ↦ if dry then quiet else publishes c
          ])
            ≡ without_files (elim o [
              | some e ↦ prepare_failed (runtime_refused e)
              | none ↦ if dry then quiet else publishes (record c { files = t })
            ])
      admitted (some e) dry = refl
      admitted none true = refl
      admitted none false = refl

  materialize_candidate-files :
      (opts : ReloadOpts) (c : Config) (t : FileTracker)
      → without_files (materialize_candidate w st (admit_candidate w opts) c)
        ≡ without_files
            (materialize_candidate w st (admit_candidate w opts) (record c { files = t }))
  unfolding materialize_candidate
  materialize_candidate-files opts c t =
      done (materialize_effective_config st w.admit w.materialize w.canceled c.live)
    where
      done :
          (a : Attempt Live)
          → without_files (elim a [
            | refused e ↦ prepare_failed (unmaterialized_sources e)
            | made live ↦ admit_candidate w opts (record c { live = live })
          ])
            ≡ without_files (elim a [
              | refused e ↦ prepare_failed (unmaterialized_sources e)
              | made live ↦ admit_candidate w opts (record c { live = live; files = t })
            ])
      done (refused e) = refl
      done (made live) = admit_candidate-files opts (record c { live = live }) t

  -- What follows a load depends on its result and its caches alone.
  after_load-bare :
      (opts : ReloadOpts) (c : Config) (t : FileTracker) (x : Loading Loaded)
      → without_files (after_load w st ls opts (record c { files = t }) x)
        ≡ without_files (after_load w st ls opts c (bare x))
  unfolding after_load with_load track_all
  after_load-bare opts c t (aborted e) = refl
  after_load-bare opts c t (loaded l) =
      materialize_candidate-files opts (with_load w l (record c { files = t })) c.files

  after_load-same :
      (opts : ReloadOpts) (c : Config) (t : FileTracker) (x y : Loading Loaded)
      → bare x ≡ bare y
      → without_files (after_load w st ls opts (record c { files = t }) x)
        ≡ without_files (after_load w st ls opts c y)
  after_load-same opts c t x y e =
      after_load-bare opts c t x
      ∙ ap (λ z. without_files (after_load w st ls opts c z)) e
      ∙ sym (after_load-bare opts c c.files y)

  after_load-incremental :
      (opts : ReloadOpts) (b : Bool) (c : Config) (x : Loading Loaded)
      → after_load w st ls (record opts { incremental = b }) c x ≡ after_load w st ls opts c x
  unfolding after_load materialize_candidate admit_candidate
  after_load-incremental opts b c (aborted e) = refl
  after_load-incremental opts b c (loaded l) = refl

  -- After a load that succeeded, an incremental reload that selects some sources, among them each one
  -- that would now load differently, ends as a reload of all sources, up to the tracker of files. The
  -- condition on the layers of the first load is that the copy of each is the layer itself.
  pub prepare_with-incremental :
      (opts : ReloadOpts) (c : Config) (old : List Slot) (caches : List Cache) (tracker : Tracker)
      (l : Loaded) (source : Text) (selected : List Text) (t : FileTracker)
      → select_sources w c ≡ (source ∷ selected, t)
      → load_selected ls none caches old tracker ≡ loaded l
      → c.caches ≡ l.caches
      → All (IsMade ls.policy) old
      → Unchanged ls.policy
          (some (contains_text (source ∷ selected)))
          old
          (slots_of w.serve 0 c.loaders)
      → without_files (prepare_with w st ls (record opts { incremental = true }) c)
        ≡ without_files (prepare_with w st ls (record opts { incremental = false }) c)
  unfolding prepare_with reload_selected rebuild load_candidate
  prepare_with-incremental opts c old caches tracker l source selected t chosen h kept plain still =
      ap (λ s. without_files (reload_selected w st ls (record opts { incremental = true }) c s))
        chosen
      ∙ ap without_files (after_load-incremental opts true (record c { files = t }) partial)
      ∙ after_load-same opts c t partial whole (
          subst (λ cs. bare (load_selected ls some_sources cs slots cleared) ≡ bare whole)
            (sym kept)
            (load_selected-Unchanged ls some_sources caches c.caches old slots tracker cleared l h
              plain still))
      ∙ ap without_files (sym (after_load-incremental opts false c whole))
    where
      slots : List Slot
      slots = slots_of w.serve 0 c.loaders

      cleared : Tracker
      cleared = restore [] c.live.tracker

      some_sources : Option (Text → Bool)
      some_sources = some (contains_text (source ∷ selected))

      partial : Loading Loaded
      partial = load_selected ls some_sources c.caches slots cleared

      whole : Loading Loaded
      whole = load_selected ls none c.caches slots cleared
