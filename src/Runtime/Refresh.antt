-- ===== src/Runtime/Refresh.antt =====
-- config_materialize.go: the publication of a whole configuration, and RefreshSecrets.
use confii_go.Base.{Bool, false, Option, none, some, if◌then◌else◌}
use confii_go.Value.{Fields}
use confii_go.Runtime.State.{
  Live, Settings, RuntimeError, canceled_error, rejected, Attempt, made, refused, bump_revision,
  check_mutable, Round, stopped,
}
use confii_go.Runtime.Sensitive.{sensitive_paths_for}
use confii_go.Runtime.Candidates.{snapshot_candidate, commit_candidate}

-- `materializeEffectiveConfig`: `admit` is the check before the resolution, and `resolve` the hooks over
-- the whole map.
unfoldable pub materialize_effective_config :
    Settings
    → (Option Fields → Option RuntimeError)
    → (Option Fields → Attempt (Option Fields))
    → Bool
    → Live
    → Attempt Live
materialize_effective_config st admit resolve canceled c =
    if canceled then refused canceled_error else elim (admit c.views.env_config) [
      | some e ↦ refused e
      | none ↦ elim (resolve c.views.env_config) [
        | refused e ↦ refused e
        | made result ↦ made (record c {
          views = record c.views { env_config = result; unresolved = c.views.env_config };
          sensitive_paths = sensitive_paths_for c.views.env_config st.declared_sensitive;
          has_model = false;
          revision = bump_revision c.revision;
        })
      ]
    ]

unfoldable pub publish_refresh : Settings → Option Fields → Option Fields → Live → Live
publish_refresh st raw result c = record c {
  views = record c.views { env_config = result };
  sensitive_paths = sensitive_paths_for raw st.declared_sensitive;
  has_model = false;
  revision = bump_revision c.revision;
}

-- One attempt of the loop. `later` is the state when the write lock is taken.
unfoldable pub refresh_round :
    Settings → (Option Fields → Attempt (Option Fields)) → Bool → Bool → Live → Live → Round Live
refresh_round st resolve canceled canceled_later c later =
    if canceled then stopped canceled_error else elim (check_mutable c) [
      | refused e ↦ stopped e
      | made _ ↦ elim (resolve c.views.unresolved) [
        | refused e ↦ stopped e
        | made result ↦ elim (st.validate result) [
          | some failure ↦ stopped (rejected failure)
          | none ↦
              commit_candidate check_mutable (publish_refresh st c.views.unresolved result)
                canceled_later (snapshot_candidate c) later
        ]
      ]
    ]

-- The call up to the loop: `none` where there is nothing to refresh.
unfoldable pub admit_refresh : Bool → Live → Attempt (Option Fields)
admit_refresh canceled c =
    if canceled
    then refused canceled_error
    else elim (check_mutable c) [ refused e ↦ refused e | made _ ↦ made c.views.unresolved ]
