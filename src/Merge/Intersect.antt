-- ===== src/Merge/Intersect.antt =====
-- The two intersections: `intersectMaps` and `intersectValues`, which govern a whole level, and
-- `intersect`, which is applied to one key. Neither reads the merger or the path that the first two
-- pass on, so the model leaves those out.
use confii_go.Base.{Option, none, some, ◌>>=◌}
use confii_go.Base.{Text, if◌then◌else◌}
use confii_go.Value.{Value, Fields, mapping, nil_mapping, null, end, field}
use confii_go.Value.Maps.{lookup, insert, as_map}
use confii_go.Value.Equality.{interface_eq}

-- Base and overlay are not both maps: the value that they share, if they share one.
unfoldable pub shared_value : Value → Value → Option (Option Value)
shared_value base overlay = do
  same ← interface_eq base overlay
  some (if same then some base else none)

-- `len(nested) == 0`
abbrev pub unless_empty : Fields → Option Value
unless_empty end = none
unless_empty (field k v rest) = some (mapping (field k v rest))

abbrev pub store : Text → Option Value → Fields → Fields
store k none result = result
store k (some v) result = insert k v result

-- `some none` is a value to omit.
unfoldable mutual
  pub intersect_loop : Fields → Fields → Fields → Option Fields
  intersect_loop overlay result end = some result
  intersect_loop overlay result (field k v rest) = elim (lookup k overlay) [
    | none ↦ intersect_loop overlay result rest
    | some ov ↦ (do kept ← intersect_values ov v; intersect_loop overlay (store k kept result) rest)
  ]

  pub intersect_values : Value → Value → Option (Option Value)
  intersect_values ov (mapping bm) = elim (as_map ov) [
    | none ↦ some none
    | some om ↦ (do nested ← intersect_loop om end bm; some (unless_empty nested))
  ]
  intersect_values ov nil_mapping = elim (as_map ov) [ none ↦ some none | some om ↦ some none ]
  intersect_values ov bv = elim (as_map ov) [ none ↦ shared_value bv ov | some om ↦ some none ]

unfoldable pub intersect_maps : Fields → Fields → Option Fields
intersect_maps base overlay = intersect_loop overlay end base

-- The loop of `intersect`, and its body for the two values of one key.
unfoldable mutual
  pub common_loop : Fields → Fields → Fields → Option Fields
  common_loop overlay result end = some result
  common_loop overlay result (field k v rest) = elim (lookup k overlay) [
    | none ↦ common_loop overlay result rest
    | some ov ↦ (do kept ← common_values ov v; common_loop overlay (store k kept result) rest)
  ]

  pub common_values : Value → Value → Option (Option Value)
  common_values ov (mapping bm) = elim (as_map ov) [
    | none ↦ shared_value (mapping bm) ov
    | some om ↦ (do nested ← common_loop om end bm; some (unless_empty nested))
  ]
  common_values ov nil_mapping = elim (as_map ov) [
    | none ↦ shared_value nil_mapping ov
    | some om ↦ some none
  ]
  common_values ov bv = shared_value bv ov

-- `intersect`, where a nil result says that there is no intersection.
unfoldable pub intersect : Value → Value → Option Value
intersect base overlay = do
  common ← common_values overlay base
  some (elim common [ none ↦ null | some v ↦ v ])
