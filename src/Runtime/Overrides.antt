-- ===== src/Runtime/Overrides.antt =====
-- config_override.go: Override.
use confii_go.Base.{
  ℕ, Bool, true, false, Option, none, some, List, [], ◌∷◌, ◌++◌, if◌then◌else◌, Text, codes,
}
use confii_go.Base.Sort.{sort_texts}
use confii_go.Value.{Value, Fields, end}
use confii_go.Value.Maps.{lookup, keys, insert}
use confii_go.Diff.{value_or_nil}
use confii_go.Sourcetrack.{snapshot}
use confii_go.Runtime.State.{
  OverrideBase, Live, Settings, canceled_error, unmaterialized, rejected, Attempt, made, refused,
  ◌>>=◌, bump_revision, check_open, Round, again, stopped,
}
use confii_go.Runtime.Candidates.{
  Candidate, raw_or_env, snapshot_candidate, set_candidate, publish_candidate, mutation_conflict,
  commit_candidate,
}

-- A call of Override, after its values are materialized.
pub record OverrideRequest : Type 0 where
  pub raw_overrides : Fields
  pub effective_overrides : Fields
  pub override_now : ℕ

-- The values in the order of the sorted keys.
unfoldable pub materialize_overrides :
    (Text → Value → Option Value) → Fields → List Text → Fields → Attempt Fields
materialize_overrides materialize raw [] result = made result
materialize_overrides materialize raw (k ∷ ks) result =
    elim (materialize k (value_or_nil (lookup k raw))) [
      | none ↦ refused (unmaterialized k)
      | some v ↦ materialize_overrides materialize raw ks (insert k v result)
    ]

unfoldable pub admit_override :
    (Text → Value → Option Value) → ℕ → Fields → Bool → Live → Attempt OverrideRequest
admit_override materialize now overrides canceled c =
    if canceled
    then refused canceled_error
    else (check_open c >>= λ _.
        materialize_overrides materialize overrides (sort_texts (keys overrides)) end
        >>= λ effective. made (record {
          raw_overrides = overrides;
          effective_overrides = effective;
          override_now = now;
        }))

unfoldable pub set_overrides :
    Settings → OverrideRequest → List Text → Candidate → Attempt Candidate
set_overrides st r [] candidate = made candidate
set_overrides st r (k ∷ ks) candidate =
    set_candidate st r.override_now k (value_or_nil (lookup k r.raw_overrides))
      (value_or_nil (lookup k r.effective_overrides)) (codes "override") candidate
    >>= λ next. set_overrides st r ks next

unfoldable pub capture_base : Live → OverrideBase
capture_base c = record {
  base_views = record {
    env_config = c.views.env_config;
    unresolved = raw_or_env c.views;
    merged = c.views.merged;
  };
  base_tracker = snapshot c.tracker;
  base_sensitive = c.sensitive_paths;
  base_frozen = c.frozen;
}

-- What Override does under the write lock.
unfoldable pub push_override : OverrideRequest → Candidate → Live → Live
push_override r candidate c =
    let frame_id = bump_revision c.override_id_counter in
    publish_candidate candidate (record c {
      override_base = elim c.override_stack [ [] ↦ capture_base c | f ∷ fs ↦ c.override_base ];
      override_id_counter = frame_id;
      override_stack =
          c.override_stack
          ++ (record {
            id = frame_id;
            payload = r.raw_overrides;
            effective_payload = r.effective_overrides;
          }
              ∷ []);
      frozen = false;
    })

unfoldable pub commit_override : OverrideRequest → Bool → Candidate → Live → Round Live
unfolding commit_candidate
commit_override r canceled candidate c =
    commit_candidate check_open (push_override r candidate) canceled candidate c

-- One round of the loop. `later` is the state when the write lock is taken.
unfoldable pub override_round : Settings → OverrideRequest → Bool → Live → Live → Round Live
override_round st r canceled c later = elim (check_open c) [
  | refused e ↦ stopped e
  | made _ ↦
      let tried =
        set_overrides st r (sort_texts (keys r.raw_overrides)) (snapshot_candidate c)
        >>= λ candidate. elim (st.validate candidate.new_views.env_config) [
          | none ↦ made candidate
          | some failure ↦ refused (rejected failure)
        ] in
      elim tried [
        | made candidate ↦ commit_override r canceled candidate later
        | refused failure ↦ elim (mutation_conflict canceled c.revision later) [
          | refused e ↦ stopped e
          | made true ↦ again
          | made false ↦ stopped failure
        ]
      ]
]
