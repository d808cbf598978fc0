-- ===== src/Reload/Publish.antt =====
-- config_source_transaction.go: one attempt to prepare a candidate and to publish it.
use confii_go.Base.{ℕ, Bool, false, Option, none, some, [], ◌==◌, if◌then◌else◌, Text}
use confii_go.Sourcetrack.{snapshot, restore}
use confii_go.Envhandler.{or_empty}
use confii_go.Load.Turns.{copy_map}
use confii_go.Runtime.State.{Views, canceled_error, made, refused, check_mutable, bump_revision}
use confii_go.Runtime.Restores.{no_base}
use confii_go.Reload.Prepare.{
  Config, SourceError, runtime_refused, watch_failed, Prepared, quiet, publishes, prepare_failed,
}

-- How an attempt ends. `conflicted` is the error errConfigRevisionConflict, on which the caller tries
-- again.
pub data Ended : Type 0 where
  published : Config → Ended
  kept : Ended
  conflicted : Ended
  ended_with : SourceError → Ended

-- The three copies of `copyMap`, which makes an empty map of nil.
abbrev pub copied_views : Views → Views
copied_views v = record {
  env_config = some (copy_map (or_empty v.env_config));
  unresolved = some (copy_map (or_empty v.unresolved));
  merged = some (copy_map (or_empty v.merged));
}

-- `publishSourceCandidate`
unfoldable pub publish_source_candidate : Config → Config → Config
publish_source_candidate candidate c = record candidate {
  live = record c.live {
    views = copied_views candidate.live.views;
    sensitive_paths = candidate.live.sensitive_paths;
    tracker = restore (snapshot candidate.live.tracker) c.live.tracker;
    has_model = false;
    revision = bump_revision c.live.revision;
  };
}

-- `snapshotSourceCandidate`. The other fields of the candidate are those of a new Config.
unfoldable pub snapshot_source_candidate : Config → Config
snapshot_source_candidate c = record c {
  live = record c.live {
    views = copied_views c.live.views;
    frozen = false;
    closed = false;
    revision = 0;
    has_model = false;
    override_stack = [];
    override_id_counter = 0;
    override_base = no_base;
  };
}

-- The section under the write lock. `later` is the state then, and `watching` is what the watcher
-- answers to the new list of files, if there is one.
unfoldable pub commit_source : Bool → (Config → Option Text) → ℕ → Config → Config → Ended
commit_source canceled watching base_revision candidate later =
    if canceled
    then ended_with (runtime_refused canceled_error)
    else elim (check_mutable later.live) [
      | refused e ↦ ended_with (runtime_refused e)
      | made _ ↦
          if later.live.revision == base_revision
          then elim (watching candidate) [
            | some message ↦ ended_with (watch_failed message)
            | none ↦ published (publish_source_candidate candidate later)
          ]
          else conflicted
    ]

-- What an attempt does with a prepared candidate.
unfoldable pub commit_prepared : Bool → (Config → Option Text) → ℕ → Config → Prepared → Ended
commit_prepared canceled watching base_revision later (prepare_failed e) = ended_with e
commit_prepared canceled watching base_revision later quiet = kept
commit_prepared canceled watching base_revision later (publishes candidate) =
    commit_source canceled watching base_revision candidate later

-- `sourceTransactionAttempt`. `c` is the state under the read lock.
unfoldable pub source_transaction_attempt :
    (Config → Prepared) → (Config → Option Text) → Bool → Bool → Config → Config → Ended
source_transaction_attempt prepare watching canceled canceled_later c later =
    if canceled then ended_with (runtime_refused canceled_error) else elim (check_mutable c.live) [
      | refused e ↦ ended_with (runtime_refused e)
      | made _ ↦
          commit_prepared canceled_later watching c.live.revision later
            (prepare (snapshot_source_candidate c))
    ]
