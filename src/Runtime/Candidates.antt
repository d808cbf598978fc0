-- ===== src/Runtime/Candidates.antt =====
-- config_runtime_mutation.go: a private copy of the state, its writes, and its publication.
use confii_go.Base.{ℕ, Bool, false, not, Option, none, some, List, ◌==◌, if◌then◌else◌, Text}
use confii_go.Base.Int.{pos}
use confii_go.Value.{Value, Fields}
use confii_go.Configmap.{set}
use confii_go.Sourcetrack.{Tracker, track_value}
use confii_go.Runtime.State.{
  Views, Live, Settings, closed_error, canceled_error, path_refused, Attempt, made, refused, ◌>>=◌,
  bump_revision, Round, committed, again, stopped,
}
use confii_go.Runtime.Sensitive.{sensitive_paths_for}

-- runtimeMutationCandidate, with the revision on which it is based.
pub record Candidate : Type 0 where
  pub new_views : Views
  pub new_tracker : Tracker
  pub new_sensitive : List Text
  pub base_revision : ℕ

-- `if raw == nil { raw = c.envConfig }`
abbrev pub raw_or_env : Views → Option Fields
raw_or_env v = elim v.unresolved [ none ↦ v.env_config | some m ↦ some m ]

unfoldable pub snapshot_candidate : Live → Candidate
snapshot_candidate c = record {
  new_views = record {
    env_config = c.views.env_config;
    unresolved = raw_or_env c.views;
    merged = c.views.merged;
  };
  new_tracker = c.tracker;
  new_sensitive = c.sensitive_paths;
  base_revision = c.revision;
}

-- A write to one of the maps, whose error names the key.
unfoldable pub write_view : Text → Value → Option Fields → Attempt (Option Fields)
write_view key value m =
    let (written, e) = set m key value in
    elim e [ none ↦ made written | some err ↦ refused (path_refused key err) ]

-- The three writes of `candidate.set`.
unfoldable pub write_views : Text → Value → Value → Views → Attempt Views
write_views key raw effective v = do
  env' ← write_view key effective v.env_config
  unresolved' ← write_view key raw v.unresolved
  merged' ← write_view key raw v.merged
  made (record { env_config = env'; unresolved = unresolved'; merged = merged' })

-- `candidate.set`
unfoldable pub set_candidate :
    Settings → ℕ → Text → Value → Value → Text → Candidate → Attempt Candidate
set_candidate st now key raw effective source candidate = do
  views' ← write_views key raw effective candidate.new_views
  made (record candidate {
    new_views = views';
    new_sensitive = sensitive_paths_for views'.unresolved st.declared_sensitive;
    new_tracker = track_value key raw source source st.env (pos 0) now candidate.new_tracker;
  })

unfoldable pub publish_candidate : Candidate → Live → Live
publish_candidate candidate c = record c {
  views = candidate.new_views;
  tracker = candidate.new_tracker;
  sensitive_paths = candidate.new_sensitive;
  has_model = false;
  revision = bump_revision c.revision;
}

-- `runtimeMutationConflict`
unfoldable pub mutation_conflict : Bool → ℕ → Live → Attempt Bool
mutation_conflict canceled revision c =
    if canceled
    then refused canceled_error
    else if c.closed
    then refused closed_error
    else made (not (c.revision == revision))

-- The section under the write lock. `publish` is what the operation does there.
unfoldable pub commit_candidate :
    (Live → Attempt (Unit {0})) → (Live → Live) → Bool → Candidate → Live → Round Live
commit_candidate check publish canceled candidate c =
    if canceled then stopped canceled_error else elim (check c) [
      | refused e ↦ stopped e
      | made _ ↦ if c.revision == candidate.base_revision then committed (publish c) else again
    ]
