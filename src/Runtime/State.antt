-- ===== src/Runtime/State.antt =====
-- config.go and config_lifecycle.go: the live state of a Config, its errors and its lifecycle.
use confii_go.Base.{ℕ, ◌+◌, ◌%◌, ◌^◌, Bool, true, Option, List, if◌then◌else◌, Text}
use confii_go.Base.Dict.{Dict}
use confii_go.Value.{Fields}
use confii_go.Configmap.{PathError}
use confii_go.Sourcetrack.{Tracker, SourceInfo}

-- The three maps of a snapshot: materialized, before the hooks, and before the environment's choice.
pub record Views : Type 0 where
  pub env_config : Option Fields
  pub unresolved : Option Fields
  pub merged : Option Fields

pub record OverrideFrame : Type 0 where
  pub id : ℕ
  pub payload : Fields
  pub effective_payload : Fields

-- The fields overrideBase…
pub record OverrideBase : Type 0 where
  pub base_views : Views
  pub base_tracker : Dict SourceInfo
  pub base_sensitive : List Text
  pub base_frozen : Bool

-- The fields of Config that its operations change. A set of paths is the list of its elements.
-- `applied` of a frame is true exactly while the frame is on the stack, so it has no field.
pub record Live : Type 0 where
  pub views : Views
  pub tracker : Tracker
  pub sensitive_paths : List Text
  pub frozen : Bool
  pub closed : Bool
  pub revision : ℕ
  pub has_model : Bool
  pub override_stack : List OverrideFrame
  pub override_id_counter : ℕ
  pub override_base : OverrideBase

-- What is fixed when the Config is made.
pub record Settings : Type 0 where
  pub env : Text
  pub declared_sensitive : List Text
  pub validate : Option Fields → Option Text

pub data RuntimeError : Type 0 where
  closed_error : RuntimeError
  frozen_error : RuntimeError
  canceled_error : RuntimeError
  bad_option : ℕ → RuntimeError
  unmaterialized : Text → RuntimeError
  key_exists : Text → RuntimeError
  path_refused : Text → PathError → RuntimeError
  rejected : Text → RuntimeError
  versioning_off : RuntimeError
  version_missing : Text → RuntimeError

pub data Attempt {ℓ} (A : Type ℓ) : Type ℓ where
  made : A → Attempt A
  refused : RuntimeError → Attempt A

infixl 5 ◌>>=◌
abbrev pub ◌>>=◌ {ℓ κ} : {A : Type ℓ} {B : Type κ} → Attempt A → (A → Attempt B) → Attempt B
made a >>= f = f a
refused e >>= f = refused e

-- `c.revision++` on a uint64.
abbrev pub bump_revision : ℕ → ℕ
bump_revision r = (r + 1) % 2 ^ 64

-- The lifecycle checks of the mutations.
unfoldable pub check_mutable : Live → Attempt (Unit {0})
check_mutable c =
    if c.closed then refused closed_error else if c.frozen then refused frozen_error else made tt

unfoldable pub check_open : Live → Attempt (Unit {0})
check_open c = if c.closed then refused closed_error else made tt

-- How a round of an optimistic loop ends: with a commit, another round or an error.
pub data Round {ℓ} (A : Type ℓ) : Type ℓ where
  committed : A → Round A
  again : Round A
  stopped : RuntimeError → Round A

unfoldable pub freeze : Live → Live
freeze c = record c { frozen = true }

-- The change of state of Close. Its calls of other objects are left out.
unfoldable pub close : Live → Live
close c = record c { closed = true }
