-- ===== src/Reload/Extend.antt =====
-- config_extend.go: the candidate of an Extend.
use confii_go.Base.{none, some, [], ◌∷◌, ◌++◌}
use confii_go.Value.{Fields}
use confii_go.Envhandler.{or_empty, resolve}
use confii_go.Sourcetrack.{track_config}
use confii_go.Sourcetrack.Files.{track_all}
use confii_go.Runtime.State.{Settings}
use confii_go.Runtime.Candidates.{raw_or_env}
use confii_go.Load.Turns.{
  Loader, merge_panicked, Cache, Turn, contributes, passes, stops, fetch_turn,
}
use confii_go.Load.Plan.{LoadSettings}
use confii_go.Reload.Prepare.{
  Config, load_refused, runtime_refused, Prepared, quiet, publishes, prepare_failed, Served, World,
  slot_of, materialize_candidate,
}

-- The candidate with both maps merged, before its materialization.
unfoldable pub with_overlay : Fields → Fields → Config → Config
with_overlay merged env_config c = record c {
  live = record c.live {
    views = record c.live.views { env_config = some env_config; merged = some merged };
  };
}

module _ (w : World) (st : Settings) (ls : LoadSettings) where
  -- The records of the new source, with which the preparation ends.
  unfoldable pub with_source : Loader → Fields → Cache → Config → Config
  with_source l resolved cache c = record c {
    loaders = c.loaders ++ (l ∷ []);
    caches = c.caches ++ (cache ∷ []);
    files = track_all w.to_lower w.disk_after (l.source ∷ cache.dependencies) c.files;
    live = record c.live {
      tracker =
          track_config l.source l.type_name ls.env l.positions ls.now resolved [] c.live.tracker;
    };
  }

  unfoldable pub admit_source : Loader → Fields → Cache → Config → Prepared
  admit_source l resolved cache c =
      elim (w.validate_candidate c.live.views.env_config w.validate_on_load) [
        | some e ↦ prepare_failed (runtime_refused e)
        | none ↦ publishes (with_source l resolved cache c)
      ]

  -- The merges of what the source gave.
  unfoldable pub merge_source : Loader → Fields → Cache → Config → Prepared
  merge_source l composed cache c =
      let resolved = (resolve composed ls.env).0 in
      elim (ls.merger (or_empty c.live.views.merged) composed) [
        | none ↦ prepare_failed (load_refused merge_panicked)
        | some merged ↦ elim (ls.merger (or_empty (raw_or_env c.live.views)) resolved) [
          | none ↦ prepare_failed (load_refused merge_panicked)
          | some env_config ↦
              materialize_candidate w st (admit_source l resolved cache)
                (with_overlay merged env_config c)
        ]
      ]

  -- The load and the composition are those of a turn of a load, and so is what an error does.
  unfoldable pub extend_with : Loader → Turn → Config → Prepared
  extend_with l (stops e) c = prepare_failed (load_refused e)
  extend_with l (passes cache) c = quiet
  extend_with l (contributes composed cache) c = merge_source l composed cache c

  unfoldable pub prepare_extend_candidate : Served → Loader → Config → Prepared
  prepare_extend_candidate served l c = extend_with l (fetch_turn ls.policy (slot_of served l)).0 c
