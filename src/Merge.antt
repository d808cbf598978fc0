-- ===== src/Merge.antt =====
-- merge/merge.go and merge/strategy.go: the merge with a strategy for each path.
-- `none` is a run-time panic, which a comparison of two slices raises. A nil map reads as an empty
-- one.
pub mod Intersect
pub mod Resolve
pub mod Runs
pub mod Nearest
pub mod Intersections
pub mod Shared
pub mod Steps
pub mod Deep
pub mod Levels
pub mod Entries
use mathlib.Core.Option
use confii_go.Base.{◌≡◌, Bool, true, false, ◌&&◌, Option, none, some, List, [], ◌∷◌, ◌++◌, ◌>>=◌}
use confii_go.Base.{Text, text_eq, if◌then◌else◌}
use confii_go.Value.{Value, Items, Fields, mapping, nil_mapping, sequence, nil, cons, end, field}
use confii_go.Value.Maps.{lookup, insert, as_map, as_slice, copy_fields, append_items}
use confii_go.Configmap.{extend}
use Resolve.{Strategy, replace, shallow_merge, deep_merge, append, prepend, intersection, union}
use Resolve.{Merger, lookup_strategy, resolve_strategy}
use Intersect.{intersect_maps, intersect}

-- `toSlice`
unfoldable pub to_slice : Value → Items
to_slice v = elim (as_slice v) [ none ↦ cons v nil | some items ↦ items ]

unfoldable pub append_lists : Value → Value → Value
unfolding to_slice
append_lists base overlay = sequence (append_items (to_slice base) (to_slice overlay))

unfoldable pub prepend_lists : Value → Value → Value
unfolding to_slice
prepend_lists base overlay = sequence (append_items (to_slice overlay) (to_slice base))

-- The strategies that look at two maps: `both` is what they do with them.
unfoldable pub on_maps : Value → Value → (Fields → Fields → Option Value) → Option Value
on_maps base overlay both = elim (as_map base) [
  | none ↦ some overlay
  | some b ↦ elim (as_map overlay) [ none ↦ some overlay | some o ↦ both b o ]
]

-- The switch of `applyStrategy`. The first argument is `mergeAt(·, overlayMap, path)`.
unfoldable pub apply_switch : (Fields → Option Fields) → Strategy → Value → Value → Option Value
apply_switch merge_map replace base overlay = some overlay
apply_switch merge_map shallow_merge base overlay =
    on_maps base overlay (λ b o. some (mapping (copy_fields (copy_fields end b) o)))
apply_switch merge_map deep_merge base overlay =
    on_maps base overlay (λ b o. Option.map mapping (merge_map b))
apply_switch merge_map append base overlay = some (append_lists base overlay)
apply_switch merge_map prepend base overlay = some (prepend_lists base overlay)
apply_switch merge_map intersection base overlay = intersect base overlay
apply_switch merge_map union base overlay =
    on_maps base overlay (λ b o. Option.map mapping (merge_map b))

module _ (m : Merger) where
  -- The choice that `mergeAt` makes before its loop, which takes the initial result.
  unfoldable pub at_level : Fields → Fields → Text → (Fields → Option Fields) → Option Fields
  at_level base overlay prefix loop = elim (resolve_strategy m prefix) [
    | intersection ↦ intersect_maps base overlay
    | replace ↦ loop end
    | _ ↦ loop (copy_fields end base)
  ]

  unfoldable mutual
    -- The loop of `mergeAt` over `overlay`.
    pub merge_loop : Fields → Text → Fields → Fields → Option Fields
    merge_loop base prefix result end = some result
    merge_loop base prefix result (field k v rest) = elim (lookup k base) [
      | none ↦ merge_loop base prefix (insert k v result) rest
      | some old ↦ (do
        new ← apply_strategy (resolve_strategy m (extend prefix k)) old (extend prefix k) v
        merge_loop base prefix (insert k new result) rest)
    ]

    pub apply_strategy : Strategy → Value → Text → Value → Option Value
    apply_strategy s old path (mapping o) =
        apply_switch (λ b. at_level b o path (λ r. merge_loop b path r o)) s old (mapping o)
    apply_strategy s old path nil_mapping =
        apply_switch (λ b. at_level b end path (λ r. some r)) s old nil_mapping
    apply_strategy s old path v = apply_switch (λ b. some b) s old v

  unfoldable pub merge_at : Fields → Fields → Text → Option Fields
  merge_at base overlay prefix =
      at_level base overlay prefix (λ r. merge_loop base prefix r overlay)

  -- The loop of `Merge` under a shallow default.
  unfoldable pub shallow_loop : Fields → Fields → Fields → Option Fields
  shallow_loop base result end = some result
  shallow_loop base result (field k v rest) = elim (lookup k base) [
    | none ↦ shallow_loop base (insert k v result) rest
    | some old ↦ elim (lookup_strategy k m.strategy_map) [
      | none ↦ shallow_loop base (insert k v result) rest
      | some s ↦ (do new ← apply_strategy s old k v; shallow_loop base (insert k new result) rest)
    ]
  ]

  unfoldable pub merge : Fields → Fields → Option Fields
  merge base overlay = elim m.default_strategy [
    | shallow_merge ↦ shallow_loop base (copy_fields end base) overlay
    | _ ↦ merge_at base overlay []
  ]

-- `MergeAll`, over any `Merger`. A nil configuration is skipped.
unfoldable pub merge_rest :
    (Fields → Fields → Option Fields) → Fields → List (Option Fields) → Option Fields
merge_rest merger result [] = some result
merge_rest merger result (none ∷ configs) = merge_rest merger result configs
merge_rest merger result (some config ∷ configs) = do
  merged ← merger result config
  merge_rest merger merged configs

unfoldable pub merge_all : (Fields → Fields → Option Fields) → List (Option Fields) → Option Fields
unfolding merge_rest
merge_all merger [] = some end
merge_all merger (none ∷ configs) = merge_rest merger end configs
merge_all merger (some config ∷ configs) = merge_rest merger config configs
