-- ===== src/Reload/DryRun.antt =====
-- What a dry run of a reload publishes.
use confii_go.Base.{Bool, true, false, Option, none, some, List, [], ◌∷◌, ◌≡◌, ◌≢◌}
use confii_go.Base.{Text, if◌then◌else◌}
use confii_go.Runtime.State.{Live, Settings, RuntimeError, Attempt, made, refused}
use confii_go.Runtime.Refresh.{materialize_effective_config}
use confii_go.Load.Plan.{LoadSettings, Loading, loaded, aborted}
use confii_go.Load.Selected.{Loaded}
use confii_go.Sourcetrack.Files.{FileTracker}
use confii_go.Reload.Prepare.{
  Config, ReloadOpts, runtime_refused, unmaterialized_sources, quiet, publishes, prepare_failed,
  World, admit_candidate, materialize_candidate, with_load, after_load, rebuild, reload_selected,
  select_sources, prepare_with,
}

module _ (w : World) (st : Settings) (ls : LoadSettings) where
  after_load-dry :
      (opts : ReloadOpts) (c d : Config) (x : Loading Loaded)
      → opts.dry_run ≡ true
      → after_load w st ls opts c x ≢ publishes d
  unfolding after_load materialize_candidate admit_candidate
  after_load-dry opts c d (aborted e) dry h = cc
  after_load-dry opts c d (loaded l) dry h =
      done (materialize_effective_config st w.admit w.materialize w.canceled (with_load w l c).live)
        h
    where
      admitted :
          (e : Config) (o : Option RuntimeError) (b : Bool)
          → b ≡ true
          → elim o [
            | some f ↦ prepare_failed (runtime_refused f)
            | none ↦ if b then quiet else publishes e
          ]
            ≢ publishes d
      admitted e (some f) b dry k = cc
      admitted e none true dry k = cc
      admitted e none false dry k = cc

      done :
          (a : Attempt Live)
          → elim a [
            | refused e ↦ prepare_failed (unmaterialized_sources e)
            | made live ↦ admit_candidate w opts (record (with_load w l c) { live = live })
          ]
            ≢ publishes d
      done (refused e) k = cc
      done (made live) k =
          admitted (record (with_load w l c) { live = live })
            (w.validate_candidate live.views.env_config
              (elim opts.validate [ none ↦ w.validate_on_load | some v ↦ v ]))
            opts.dry_run dry k

  -- A dry run publishes nothing, whichever sources it selects.
  pub prepare_with-dry_run :
      (opts : ReloadOpts) (c d : Config)
      → opts.dry_run ≡ true
      → prepare_with w st ls opts c ≢ publishes d
  unfolding prepare_with reload_selected rebuild
  prepare_with-dry_run opts c d dry h = branches opts.incremental (select_sources w c) h
    where
      branches :
          (b : Bool) (s : List Text × FileTracker)
          → (if b then reload_selected w st ls opts c s else rebuild w st ls opts none c)
            ≢ publishes d
      branches false s k = after_load-dry opts c d _ dry k
      branches true ([], t) k = cc
      branches true (p ∷ ps, t) k = after_load-dry opts (record c { files = t }) d _ dry k
