-- ===== src/Runtime/Sets.antt =====
-- config_mutation.go: Set, as the sections of code that run under the lock.
use confii_go.Base.{
  ℕ, ◌+◌, Bool, true, false, not, ◌&&◌, Option, none, some, List, [], ◌∷◌, if◌then◌else◌, Text,
  codes,
}
use confii_go.Value.{Value}
use confii_go.Configmap.{has}
use confii_go.Runtime.State.{
  Live, Settings, canceled_error, bad_option, unmaterialized, key_exists, rejected, Attempt, made,
  refused, ◌>>=◌, check_mutable, Round, committed, again, stopped,
}
use confii_go.Runtime.Candidates.{
  Candidate, snapshot_candidate, set_candidate, publish_candidate, mutation_conflict,
  commit_candidate,
}

-- The options in order. An option is a function on the setting; it may be nil, or panic.
unfoldable pub apply_set_options : ℕ → List (Option (Bool → Option Bool)) → Bool → Attempt Bool
apply_set_options index [] setting = made setting
apply_set_options index (none ∷ opts) setting = refused (bad_option index)
apply_set_options index (some option ∷ opts) setting = elim (option setting) [
  | none ↦ refused (bad_option index)
  | some changed ↦ apply_set_options (index + 1) opts changed
]

-- A call of Set, after its value is materialized.
pub record SetRequest : Type 0 where
  pub key : Text
  pub raw : Value
  pub effective : Value
  pub allow_override : Bool
  pub now : ℕ

unfoldable pub admit_set :
    (Text → Value → Option Value)
    → ℕ
    → Text
    → Value
    → List (Option (Bool → Option Bool))
    → Bool
    → Live
    → Attempt SetRequest
admit_set materialize now key value opts canceled c =
    if canceled
    then refused canceled_error
    else (check_mutable c >>= λ _. apply_set_options 0 opts true >>= λ allow.
        elim (materialize key value) [
          | none ↦ refused (unmaterialized key)
          | some effective ↦ made (record {
            key = key;
            raw = value;
            effective = effective;
            allow_override = allow;
            now = now;
          })
        ])

-- The section under the read lock.
unfoldable pub begin_set : Settings → SetRequest → Live → Attempt Candidate
begin_set st r c = check_mutable c >>= λ _.
    if not r.allow_override && has c.views.env_config r.key
    then refused (key_exists r.key)
    else set_candidate st r.now r.key r.raw r.effective (codes "runtime") (snapshot_candidate c)

unfoldable pub commit_set : Bool → Candidate → Live → Round Live
unfolding commit_candidate
commit_set canceled candidate c =
    commit_candidate check_mutable (publish_candidate candidate) canceled candidate c

-- One round of the loop. `later` is the state when the write lock is taken.
unfoldable pub set_round : Settings → SetRequest → Bool → Live → Live → Round Live
set_round st r canceled c later = elim (begin_set st r c) [
  | refused e ↦ stopped e
  | made candidate ↦ elim (st.validate candidate.new_views.env_config) [
    | some failure ↦ elim (mutation_conflict canceled candidate.base_revision later) [
      | refused e ↦ stopped e
      | made true ↦ again
      | made false ↦ stopped (rejected failure)
    ]
    | none ↦ commit_set canceled candidate later
  ]
]

-- What a round of the loop meets: whether the context is canceled, the state when it takes the read
-- lock, and the state when it takes the write lock.
pub record Meeting : Type 0 where
  pub is_canceled : Bool
  pub at_read : Live
  pub at_write : Live

-- The loop, on the rounds that other operations leave it. It is `none` after rounds that all go on.
unfoldable pub set_loop : Settings → SetRequest → List Meeting → Option (Round Live)
set_loop st r [] = none
set_loop st r (m ∷ ms) = elim (set_round st r m.is_canceled m.at_read m.at_write) [
  | again ↦ set_loop st r ms
  | committed c ↦ some (committed c)
  | stopped e ↦ some (stopped e)
]
