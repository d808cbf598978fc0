-- ===== src/Load/Strategy.antt =====
-- config_environment_strategy.go: how environment sections and environment files may be combined.
-- `strings.ToLower` and `strings.TrimSpace` are parameters.
use confii_go.Base.{Bool, false, not, ◌&&◌, ◌||◌, Option, none, some, List, [], ◌∷◌}
use confii_go.Base.{Text, codes, text_eq, if◌then◌else◌}

pub data EnvironmentStrategy : Type 0 where
  auto : EnvironmentStrategy
  sectioned : EnvironmentStrategy
  named_files : EnvironmentStrategy
  hybrid : EnvironmentStrategy

pub data EnvironmentConflictPolicy : Type 0 where
  conflict_error : EnvironmentConflictPolicy
  conflict_warn : EnvironmentConflictPolicy
  conflict_last_wins : EnvironmentConflictPolicy

pub data StrategyError : Type 0 where
  invalid_strategy : Text → StrategyError
  invalid_policy : Text → StrategyError
  sectioned_with_files : StrategyError
  files_missing : EnvironmentStrategy → StrategyError
  policy_missing : StrategyError

pub data Checked {ℓ} (A : Type ℓ) : Type ℓ where
  valid : A → Checked A
  invalid : StrategyError → Checked A

-- The fields of `options` that the check reads. A source stands by its type, empty if it has none.
pub record StrategyOptions : Type 0 where
  pub strategy : Text
  pub conflict_policy : Text
  pub source_types : List Text
  pub loaders_set : Bool
  pub policy_configured : Bool

unfoldable pub strategy_named : Text → Option EnvironmentStrategy
strategy_named s =
    if text_eq s (codes "auto")
    then some auto
    else if text_eq s (codes "sectioned")
    then some sectioned
    else if text_eq s (codes "named_files")
    then some named_files
    else if text_eq s (codes "hybrid")
    then some hybrid
    else none

unfoldable pub policy_named : Text → Option EnvironmentConflictPolicy
policy_named s =
    if text_eq s (codes "error")
    then some conflict_error
    else if text_eq s (codes "warn")
    then some conflict_warn
    else if text_eq s (codes "last_wins")
    then some conflict_last_wins
    else none

-- The last switch of `resolveEnvironmentStrategy`.
unfoldable pub check_strategy : Bool → StrategyOptions → EnvironmentStrategy → Option StrategyError
check_strategy has_files opts auto = none
check_strategy has_files opts sectioned = if has_files then some sectioned_with_files else none
check_strategy has_files opts named_files =
    if not has_files && not opts.loaders_set then some (files_missing named_files) else none
check_strategy has_files opts hybrid =
    if not has_files && not opts.loaders_set
    then some (files_missing hybrid)
    else if not opts.policy_configured
    then some policy_missing
    else none

-- `if opts.EnvironmentStrategy == EnvironmentStrategyAuto && hasEnvironmentFiles`
unfoldable pub infer_strategy : Bool → EnvironmentStrategy → EnvironmentStrategy
infer_strategy has_files auto = if has_files then named_files else auto
infer_strategy has_files s = s

module _ (to_lower trim_space : Text → Text) where
  unfoldable pub parse_environment_strategy : Text → Checked EnvironmentStrategy
  parse_environment_strategy value = elim (strategy_named (to_lower (trim_space value))) [
    | none ↦ invalid (invalid_strategy value)
    | some s ↦ valid s
  ]

  unfoldable pub parse_environment_conflict_policy : Text → Checked EnvironmentConflictPolicy
  parse_environment_conflict_policy value = elim (policy_named (to_lower (trim_space value))) [
    | none ↦ invalid (invalid_policy value)
    | some p ↦ valid p
  ]

  unfoldable pub has_environment_files : List Text → Bool
  has_environment_files [] = false
  has_environment_files (t ∷ ts) =
      text_eq (to_lower (trim_space t)) (codes "environment_files") || has_environment_files ts

  -- The strategy and the policy that the options hold afterwards.
  unfoldable pub resolve_environment_strategy :
      StrategyOptions → Checked (EnvironmentStrategy × EnvironmentConflictPolicy)
  resolve_environment_strategy opts = elim (parse_environment_strategy opts.strategy) [
    | invalid e ↦ invalid e
    | valid s ↦ elim (parse_environment_conflict_policy opts.conflict_policy) [
      | invalid e ↦ invalid e
      | valid p ↦
          let has_files = has_environment_files opts.source_types in
          elim (check_strategy has_files opts (infer_strategy has_files s)) [
            | some e ↦ invalid e
            | none ↦ valid (infer_strategy has_files s, p)
          ]
    ]
  ]
