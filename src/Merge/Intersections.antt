-- ===== src/Merge/Intersections.antt =====
-- merge/strategy.go: `intersect` beside `intersectMaps`.
use confii_go.Base.{◌≡◌, refl, ap, Option, none, some, ◌>>=◌}
use confii_go.Base.{Option-cases, inl, inr}
use confii_go.Value.{Value, Fields, null, mapping, nil_mapping, end, field}
use confii_go.Value.Maps.{lookup, as_map}
use confii_go.Value.Equality.{interface_eq}
use confii_go.Merge.Intersect.{
  shared_value, unless_empty, store, intersect_loop, intersect_values, intersect_maps,
}
use confii_go.Merge.Intersect.{common_loop, common_values, intersect}

-- A map equals no value that is not a map.
shared_value_of_map :
    (m : Fields) (v : Value) → as_map v ≡ none → shared_value (mapping m) v ≡ some none
unfolding shared_value interface_eq
shared_value_of_map m (mapping n) h = cc
shared_value_of_map m nil_mapping h = cc
shared_value_of_map m v h = refl

shared_value_of_nil_map : (v : Value) → as_map v ≡ none → shared_value nil_mapping v ≡ some none
unfolding shared_value interface_eq
shared_value_of_nil_map (mapping n) h = cc
shared_value_of_nil_map nil_mapping h = cc
shared_value_of_nil_map v h = refl

pub shared_value_to_map :
    (v w : Value) (m : Fields) → as_map v ≡ none → as_map w ≡ some m → shared_value v w ≡ some none
shared_value_to_map v (mapping n) m h k = to_made v h
  where
    to_made : (u : Value) → as_map u ≡ none → shared_value u (mapping n) ≡ some none
    to_made (mapping o) x = cc
    to_made nil_mapping x = cc
    to_made u x = unfold shared_value interface_eq in refl
shared_value_to_map v nil_mapping m h k = to_nil v h
  where
    to_nil : (u : Value) → as_map u ≡ none → shared_value u nil_mapping ≡ some none
    to_nil (mapping o) x = cc
    to_nil nil_mapping x = cc
    to_nil u x = unfold shared_value interface_eq in refl
shared_value_to_map v w m h k = cc

-- A value that is no map, against any other value.
pub plain_values : (ov bv : Value) → as_map bv ≡ none → common_values ov bv ≡ intersect_values ov bv
unfolding common_values intersect_values
plain_values ov (mapping m) h = cc
plain_values ov nil_mapping h = cc
plain_values ov bv h = elim (Option-cases (as_map ov)) [
  | inl e ↦ rw (e, intersect_values)
  | inr (m, e) ↦ rw (e, intersect_values) (shared_value_to_map bv ov m h e)
]

map_against_plain :
    (ov : Value) (m : Fields)
    → as_map ov ≡ none
    → common_values ov (mapping m) ≡ intersect_values ov (mapping m)
unfolding common_values intersect_values
map_against_plain ov m e = rw (e, intersect_values, common_values) (shared_value_of_map m ov e)

nil_map_values : (ov : Value) → common_values ov nil_mapping ≡ intersect_values ov nil_mapping
unfolding common_values intersect_values
nil_map_values ov = elim (Option-cases (as_map ov)) [
  | inl e ↦ rw (e, intersect_values, common_values) (shared_value_of_nil_map ov e)
  | inr (m, e) ↦ rw (e, intersect_values, common_values)
]

map_values :
    (ov : Value) (m n : Fields)
    → as_map ov ≡ some n
    → common_loop n end m ≡ intersect_loop n end m
    → common_values ov (mapping m) ≡ intersect_values ov (mapping m)
unfolding common_values intersect_values
map_values ov m n e h =
    rw (e, intersect_values, common_values) (ap (λ r. r >>= λ nested. some (unless_empty nested)) h)

mutual
  unfolding common_loop intersect_loop

  common-eq-intersect_loop :
      (overlay result base : Fields)
      → common_loop overlay result base ≡ intersect_loop overlay result base
  common-eq-intersect_loop overlay result end = refl
  common-eq-intersect_loop overlay result (field k v rest) = λ i. elim (lookup k overlay) [
    | none ↦ common-eq-intersect_loop overlay result rest i
    | some ov ↦ common-eq-intersect_values ov v i >>= λ kept.
        common-eq-intersect_loop overlay (store k kept result) rest i
  ]

  common-eq-intersect_values : (ov bv : Value) → common_values ov bv ≡ intersect_values ov bv
  common-eq-intersect_values ov (mapping m) = elim (Option-cases (as_map ov)) [
    | inl e ↦ map_against_plain ov m e
    | inr (n, e) ↦ map_values ov m n e (common-eq-intersect_loop n end m)
  ]
  common-eq-intersect_values ov nil_mapping = nil_map_values ov
  common-eq-intersect_values ov bv = plain_values ov bv refl

-- `intersect` on two maps is `intersectMaps`, with nil for an empty result.
pub intersect-intersect_maps :
    (base overlay : Fields)
    → intersect (mapping base) (mapping overlay) ≡ (
        intersect_maps base overlay >>= λ r.
        some (elim (unless_empty r) [ none ↦ null | some v ↦ v ]))
unfolding intersect intersect_maps common_values
intersect-intersect_maps base overlay =
    rw (common-eq-intersect_loop overlay end base) (bind_twice (intersect_loop overlay end base))
  where
    bind_twice :
        (o : Option Fields)
        → (o >>= λ r. some (unless_empty r)) >>= (λ c. some (elim c [ none ↦ null | some v ↦ v ]))
          ≡ (o >>= λ r. some (elim (unless_empty r) [ none ↦ null | some v ↦ v ]))
    bind_twice none = refl
    bind_twice (some r) = refl
