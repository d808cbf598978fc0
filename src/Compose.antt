-- ===== src/Compose.antt =====
-- compose/composer.go: the directives `_defaults` and `_include` of a configuration file.
-- Parameters: the merger, the file system (`read_file`), the decoding of a file by its extension
-- (`decode`), `strings.TrimSpace`, the rules of filepath, which depend on the platform, and the
-- context, which says at each poll of `Err` whether it is canceled. A context that is nil is left out.
pub mod Traverse
pub mod Once
pub mod Defaults
use confii_go.Base.{ℕ, zero, suc, ◌+◌, Bool, true, false, Option, none, some, List, [], ◌∷◌, ◌++◌}
use confii_go.Base.{Text, codes, text_eq, contains_text, ◌==◌, ◌||◌, if◌then◌else◌}
use confii_go.Base.Split.{is_empty}
use confii_go.Value.{
  Value, Items, Fields, null, boolean, integer, float, text, sequence, mapping, nil_mapping, nil,
  cons, end, field,
}
use confii_go.Value.Maps.{lookup, insert, delete, copy_fields, as_map}

pub data ComposeError : Type 0 where
  is_canceled : ComposeError
  too_deep : Text → ComposeError
  unresolved : Text → ComposeError
  unreadable : Text → ComposeError
  unparsed : Text → ComposeError
  in_include : Text → ComposeError → ComposeError

pub data Outcome {ℓ} (A : Type ℓ) : Type ℓ where
  done : A → Outcome A
  failed : ComposeError → Outcome A

-- What one traversal keeps: the visited files, the files read, and the number of polls of the
-- context.
pub record Traversal : Type 0 where
  pub visited : List Text
  pub dependencies : List Text
  pub polls : ℕ

abbrev pub max_depth : ℕ
max_depth = 10

abbrev pub defaults_key : Text
defaults_key = codes "_defaults"

abbrev pub include_key : Text
include_key = codes "_include"

abbrev pub strategy_key : Text
strategy_key = codes "_merge_strategy"

-- `strings.Cut(v, ":")`
unfoldable pub cut : Text → Option (Text × Text)
cut [] = none
cut (c ∷ s) =
    let rest = cut s in
    if c == b':'
    then some ([], s)
    else elim rest [ none ↦ none | some (before, after) ↦ some (c ∷ before, after) ]

-- The loop over the entries of a map of defaults.
unfoldable pub default_fields : Fields → Fields → Fields
default_fields result end = result
default_fields result (field k v rest) =
    default_fields (if text_eq k (codes "optional") then result else insert k v result) rest

-- The included paths: the items of a list that are no strings are skipped.
unfoldable pub text_items : Items → List Text
text_items nil = []
text_items (cons (text s) rest) = s ∷ text_items rest
text_items (cons v rest) = text_items rest

-- The rules of filepath.
pub record Paths : Type 0 where
  pub is_abs : Text → Bool
  pub dir : Text → Text
  pub join : Text → Text → Text
  pub clean : Text → Text
  pub absolute_path : Text → Option Text

pub record Environment : Type 0 where
  pub paths : Paths
  pub base_path : Text
  pub merge : Fields → Fields → Fields
  pub trim_space : Text → Text
  pub read_file : Text → Option Text
  pub decode : Text → Text → Option Fields
  pub canceled : ℕ → Bool

abbrev pub Step : Type 0
Step = Traversal → Outcome Fields × Traversal

module _ (c : Environment) where
  -- `if err := ctx.Err(); err != nil { return … }`
  unfoldable pub poll : Step → Step
  poll next t =
      let polled = record t { polls = t.polls + 1 } in
      elim (c.canceled t.polls) [ true ↦ (failed is_canceled, polled) | false ↦ next polled ]

  unfoldable pub default_items : Fields → Items → Fields
  unfolding default_fields
  default_items result nil = result
  default_items result (cons (text s) rest) = elim (cut s) [
    | none ↦ default_items result rest
    | some (key, val) ↦
        default_items (insert (c.trim_space key) (text (c.trim_space val)) result) rest
  ]
  default_items result (cons (mapping m) rest) = default_items (default_fields result m) rest
  default_items result (cons v rest) = default_items result rest

  unfoldable pub process_defaults : Value → Fields
  process_defaults (sequence items) = default_items end items
  process_defaults (text s) = default_items end (cons (text s) nil)
  process_defaults v = end

  -- The part of `compose` before the includes.
  unfoldable pub apply_defaults : Fields → Fields
  apply_defaults config =
      let result = copy_fields end config in
      elim (lookup defaults_key result) [
        | none ↦ result
        | some defaults ↦ delete defaults_key (c.merge (process_defaults defaults) result)
      ]

  -- `below` is `compose` one level deeper.
  unfoldable pub load_file : (Fields → Text → Step) → Text → Step
  load_file below path = poll (λ t. elim (c.read_file path) [
    | none ↦ (failed (unreadable path), t)
    | some data_read ↦
        poll
          (λ t1. elim (c.decode path data_read) [
            | none ↦ (failed (unparsed path), t1)
            | some result ↦ poll (below result path) t1
          ])
          t
  ])

  unfoldable pub visit : Text → Traversal → Traversal
  visit canonical t = record t {
    visited = canonical ∷ t.visited;
    dependencies = t.dependencies ++ (canonical ∷ []);
  }

  -- The loop over the paths.
  unfoldable pub include_paths : (Fields → Text → Step) → Text → List Text → Fields → Step
  include_paths below base_dir [] result = λ t. (done result, t)
  include_paths below base_dir (p ∷ ps) result = poll (λ t.
      let resolved = if c.paths.is_abs p then p else c.paths.join base_dir p in
      elim (c.paths.absolute_path resolved) [
        | none ↦ (failed (unresolved p), t)
        | some absolute ↦
            let canonical = c.paths.clean absolute in
            elim (contains_text t.visited canonical) [
              | true ↦ include_paths below base_dir ps result t
              | false ↦
                  let (r, t1) = load_file below resolved (visit canonical t) in
                  elim r [
                    | failed e ↦ (failed (in_include p e), t1)
                    | done included ↦ include_paths below base_dir ps (c.merge result included) t1
                  ]
            ]
      ])

  unfoldable pub include_dir : Text → Text
  include_dir source =
      let d = c.paths.dir source in if is_empty d || text_eq d (codes ".") then c.base_path else d

  unfoldable pub process_includes : (Fields → Text → Step) → Value → Text → Step
  process_includes below (text s) source = include_paths below (include_dir source) (s ∷ []) end
  process_includes below (sequence items) source =
      include_paths below (include_dir source) (text_items items) end
  process_includes below v source = λ t. (done end, t)

  -- `compose`. The number counts the levels that are left: `maxDepth - depth`.
  unfoldable pub compose : ℕ → Fields → Text → Step
  compose zero config source = poll (λ t. (failed (too_deep source), t))
  compose (suc levels) config source = poll (λ t.
      let result = apply_defaults config in
      elim (lookup include_key result) [
        | none ↦ (done (delete strategy_key result), t)
        | some includes ↦
            let (r, t1) = process_includes (compose levels) includes source t in
            elim r [
              | failed e ↦ (failed e, t1)
              | done included ↦
                  (done (delete strategy_key (delete include_key (c.merge result included))), t1)
            ]
      ])

  unfoldable pub compose_with_dependencies : Fields → Text → Outcome Fields × List Text
  compose_with_dependencies config source =
      let (r, t) =
        compose max_depth config source (record { visited = []; dependencies = []; polls = 0 }) in
      (r, t.dependencies)
