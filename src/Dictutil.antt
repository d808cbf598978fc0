-- ===== src/Dictutil.antt =====
-- internal/dictutil/merge.go: the merges of whole maps. A nil map reads as an empty one.
pub mod Flatten
pub mod Lookups
pub mod Paths
use confii_go.Base.{Option, none, some}
use confii_go.Base.{Text}
use confii_go.Value.{Value, Fields, mapping, nil_mapping, end, field}
use confii_go.Value.Maps.{lookup, insert, as_map, copy_fields}

-- `baseVal, ok := result[k]` and `baseVal.(map[string]any)`
abbrev pub base_map : Option Value → Option Fields
base_map none = none
base_map (some v) = as_map v

-- The loop over `overlay`, which is taken apart. The value of a key that `result` has as a map, and
-- `overlay` too, is merged; any other value replaces the one in `result`.
unfoldable mutual
  pub merge_into : Fields → Fields → Fields
  merge_into result end = result
  merge_into result (field k v rest) =
      merge_into (insert k (merge_value (lookup k result) v) result) rest

  pub merge_value : Option Value → Value → Value
  merge_value base_value (mapping overlay_map) = elim (base_map base_value) [
    | none ↦ mapping overlay_map
    | some base ↦ mapping (merge_into (copy_fields end base) overlay_map)
  ]
  merge_value base_value nil_mapping = elim (base_map base_value) [
    | none ↦ nil_mapping
    | some base ↦ mapping (copy_fields end base)
  ]
  merge_value base_value v = v

-- The loop begins with a copy of `base`.
unfoldable pub deep_merge : Fields → Fields → Fields
deep_merge base overlay = merge_into (copy_fields end base) overlay

unfoldable pub shallow_merge : Fields → Fields → Fields
shallow_merge base overlay = copy_fields (copy_fields end base) overlay
