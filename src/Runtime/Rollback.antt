-- ===== src/Runtime/Rollback.antt =====
-- config_observe.go: the rollback to a stored version.
use confii_go.Base.{
  ℕ, Bool, false, Option, none, some, List, [], ◌∷◌, ◌++◌, if◌then◌else◌, Text, codes,
}
use confii_go.Base.Int.{pos}
use confii_go.Sourcetrack.{track_config, new_tracker, restore, snapshot}
use confii_go.Versions.{Version}
use confii_go.Runtime.State.{
  Live, Settings, closed_error, frozen_error, canceled_error, rejected, versioning_off,
  version_missing, Attempt, made, refused, ◌>>=◌, bump_revision,
}
use confii_go.Runtime.Sensitive.{or_nil_map}

unfoldable pub sensitive_path_set : List Text → List Text
sensitive_path_set [] = []
sensitive_path_set ([] ∷ paths) = sensitive_path_set paths
sensitive_path_set ((c ∷ path) ∷ paths) = (c ∷ path) ∷ sensitive_path_set paths

-- What RollbackToVersion does under the write lock, after its checks.
unfoldable pub publish_version : Settings → ℕ → Text → Version → Live → Live
publish_version st now wanted v c = record c {
  views = record { env_config = v.config; unresolved = v.config; merged = v.config };
  tracker =
      restore
        (snapshot (
          track_config (codes "version:" ++ wanted) (codes "version") st.env (λ k. pos 0) (λ k. now)
            (or_nil_map v.config) [] (new_tracker c.tracker.debug_mode)))
        c.tracker;
  sensitive_paths = sensitive_path_set v.version_paths;
  has_model = false;
  revision = bump_revision c.revision;
}

-- The checks before the version is read. `versions` is the lookup of the manager, if there is one.
unfoldable pub admit_rollback :
    Option (Text → Option Version) → Text → Bool → Live → Attempt Version
admit_rollback versions wanted canceled c =
    if canceled
    then refused canceled_error
    else if c.frozen
    then refused frozen_error
    else if c.closed
    then refused closed_error
    else elim versions [
      | none ↦ refused versioning_off
      | some get_version ↦ elim (get_version wanted) [
        | none ↦ refused (version_missing wanted)
        | some v ↦ made v
      ]
    ]

-- From the validation on. `c` is the state when the write lock is taken.
unfoldable pub commit_rollback : Settings → ℕ → Text → Version → Bool → Live → Attempt Live
commit_rollback st now wanted v canceled c = elim (st.validate v.config) [
  | some failure ↦ refused (rejected failure)
  | none ↦
      if canceled
      then refused canceled_error
      else if c.frozen
      then refused frozen_error
      else if c.closed
      then refused closed_error
      else made (publish_version st now wanted v c)
]

-- The whole call, between the state that its checks read and the one that its write lock finds.
unfoldable pub rollback :
    Settings → ℕ → Option (Text → Option Version) → Text → Bool → Bool → Live → Live → Attempt Live
rollback st now versions wanted canceled canceled_later c later =
    admit_rollback versions wanted canceled c >>= λ v.
    commit_rollback st now wanted v canceled_later later
