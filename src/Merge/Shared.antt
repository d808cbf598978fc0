-- ===== src/Merge/Shared.antt =====
-- merge/strategy.go: the entries of an intersection, and its panic.
use mathlib.Core.Option.{some-injective, some-ne-none}
use confii_go.Base.{sym, ◌≡◌, ◌≢◌, refl, ◌∙◌, ap, Bool, true, false, Option, none, some, [], ◌>>=◌}
use confii_go.Base.{Text, Option-cases, inl, inr}
use confii_go.Value.{Value, Items, Fields, sequence, mapping, nil_mapping, end, field}
use confii_go.Value.Maps.{lookup, as_map, UniqueKeys}
use confii_go.Value.Equality.{interface_eq}
use confii_go.Merge.Intersect.{
  shared_value, unless_empty, store, intersect_loop, intersect_values, intersect_maps,
  common_values,
}
use confii_go.Merge.{merge, merge_at, at_level}
use confii_go.Merge.Resolve.{Merger, intersection, lookup_strategy}
use confii_go.Merge.Nearest.{resolve_root}
use confii_go.Merge.Runs.{written, run, visited, lookup-run, run_panics}
use confii_go.Merge.Intersections.{plain_values, shared_value_to_map}

-- What the loop does with one entry of the base.
unfoldable pub intersect_visit : Fields → Text → Value → Option (Option Value)
intersect_visit overlay k v = elim (lookup k overlay) [
  | none ↦ some none
  | some ov ↦ intersect_values ov v
]

visit_absent :
    (overlay : Fields) (k : Text) (v : Value)
    → lookup k overlay ≡ none
    → intersect_visit overlay k v ≡ some none
unfolding intersect_visit
visit_absent overlay k v e = rw (e, intersect_visit)

visit_present :
    (overlay : Fields) (k : Text) (v ov : Value)
    → lookup k overlay ≡ some ov
    → intersect_visit overlay k v ≡ intersect_values ov v
unfolding intersect_visit
visit_present overlay k v ov e = rw (e, intersect_visit)

kept_of_written :
    (o : Option (Option Value)) (v : Value)
    → (o >>= λ kept. some (written kept none)) ≡ some (some v)
    → o ≡ some (some v)
kept_of_written none v h = cc
kept_of_written (some none) v h = cc
kept_of_written (some (some w)) v h = h

merge-intersect_maps :
    (m : Merger) (base overlay : Fields)
    → m.default_strategy ≡ intersection
    → lookup_strategy [] m.strategy_map ≡ none
    → merge m base overlay ≡ intersect_maps base overlay
unfolding merge merge_at at_level
merge-intersect_maps m base overlay d n = rw (d, merge) (rw (resolve_root m n ∙ d, at_level))

intersect_loop-run :
    (overlay result base : Fields)
    → intersect_loop overlay result base ≡ run (intersect_visit overlay) result base
unfolding intersect_loop run intersect_visit
intersect_loop-run overlay result end = refl
intersect_loop-run overlay result (field k v rest) = elim (Option-cases (lookup k overlay)) [
  | inl e ↦ rw (e, intersect_loop, intersect_visit) (intersect_loop-run overlay result rest)
  | inr (ov, e) ↦
      rw (e, intersect_loop, intersect_visit)
        (λ i.
          intersect_values ov v >>= λ kept. intersect_loop-run overlay (store k kept result) rest i)
]

-- A value that is kept, and is no map, is one that both sides have.
shared_value_sound :
    (bv ov v : Value)
    → shared_value bv ov ≡ some (some v)
    → (bv ≡ v) × (interface_eq v ov ≡ some true)
shared_value_sound bv ov v h = go (interface_eq bv ov) refl
  where
    go : (o : Option Bool) → interface_eq bv ov ≡ o → (bv ≡ v) × (interface_eq v ov ≡ some true)
    go none e =
        cc (let z : shared_value bv ov ≡ none = unfold shared_value in rw (e, shared_value) in z)
    go (some false) e =
        cc (
          let z : shared_value bv ov ≡ some none = unfold shared_value in rw (e, shared_value) in z)
    go (some true) e =
        let z : shared_value bv ov ≡ some (some bv) = unfold shared_value in rw (e, shared_value) in
        let same : bv ≡ v = cc in (same, rw same at e)

made_map_is_map :
    (o : Option Fields) (v : Value)
    → (o >>= λ r. some (unless_empty r)) ≡ some (some v)
    → as_map v ≢ none
made_map_is_map none v h k = cc
made_map_is_map (some end) v h k = cc
made_map_is_map (some (field j w r)) v h k =
    let same : mapping (field j w r) ≡ v = some-injective _ v (some-injective _ _ h) in
    some-ne-none _ (rw (← same) at k)

intersect_values_sound :
    (ov bv v : Value)
    → intersect_values ov bv ≡ some (some v)
    → as_map v ≡ none
    → (bv ≡ v) × (interface_eq v ov ≡ some true)
intersect_values_sound ov bv v h leaf = elim (Option-cases (as_map bv)) [
  | inl e ↦ elim (Option-cases (as_map ov)) [
    | inl f ↦ shared_value_sound bv ov v (sym (plain_values_eq bv e f) ∙ h)
    | inr (n, f) ↦
        cc (sym (plain_values ov bv e) ∙ plain_common bv e ∙ shared_value_to_map bv ov n e f)
  ]
  | inr (m, e) ↦ absurd (map_kept bv m e h leaf)
]
  where
    map_kept :
        (u : Value) (m : Fields)
        → as_map u ≡ some m
        → intersect_values ov u ≡ some (some v)
        → as_map v ≢ none
    map_kept (mapping o) m e h = elim (Option-cases (as_map ov)) [
      | inl f ↦
          let z : intersect_values ov (mapping o) ≡ some none =
            unfold intersect_values in rw (f, intersect_values) in
          cc
      | inr (n, f) ↦
          let z : intersect_values ov (mapping o)
              ≡ (intersect_loop n end o >>= λ r. some (unless_empty r)) =
            unfold intersect_values in rw (f, intersect_values) in
          made_map_is_map (intersect_loop n end o) v (sym z ∙ h)
    ]
    map_kept nil_mapping m e h = elim (Option-cases (as_map ov)) [
      | inl f ↦
          let z : intersect_values ov nil_mapping ≡ some none =
            unfold intersect_values in rw (f, intersect_values) in
          cc
      | inr (n, f) ↦
          let z : intersect_values ov nil_mapping ≡ some none =
            unfold intersect_values in rw (f, intersect_values) in
          cc
    ]
    map_kept u m e h = cc

    plain_common : (u : Value) → as_map u ≡ none → common_values ov u ≡ shared_value u ov
    plain_common (mapping o) x = cc
    plain_common nil_mapping x = cc
    plain_common u x = unfold common_values in refl

    plain_values_eq :
        (u : Value) → as_map u ≡ none → as_map ov ≡ none → intersect_values ov u ≡ shared_value u ov
    plain_values_eq u x y = sym (plain_values ov u x) ∙ plain_common u x

-- If the keys of the base are not repeated and the intersection does not panic, then a value of it
-- that is no map is the base's value, and the overlay has an equal one.
pub intersect_maps_sound :
    (base overlay r : Fields) (j : Text) (v : Value)
    → UniqueKeys base
    → intersect_maps base overlay ≡ some r
    → lookup j r ≡ some v
    → as_map v ≡ none
    → (lookup j base ≡ some v)
      × (w : Value) × (lookup j overlay ≡ some w)
      × (interface_eq v w ≡ some true)
unfolding lookup
intersect_maps_sound base overlay r j v u h x leaf =
    let ran : run (intersect_visit overlay) end base ≡ some r =
      sym (intersect_loop-run overlay end base) ∙ unfold_maps h in
    let seen : visited (intersect_visit overlay) j (lookup j base) none ≡ some (some v) =
      lookup-run (intersect_visit overlay) j end base r u ran ∙ ap some x in
    elim (Option-cases (lookup j base)) [
      | inl e ↦ cc (rw e at seen)
      | inr (bv, e) ↦ at_base bv e (rw e at seen)
    ]
  where
    unfold_maps : intersect_maps base overlay ≡ some r → intersect_loop overlay end base ≡ some r
    unfold_maps y = unfold intersect_maps in y

    at_base :
        (bv : Value)
        → lookup j base ≡ some bv
        → visited (intersect_visit overlay) j (some bv) none ≡ some (some v)
        → (lookup j base ≡ some v)
          × (w : Value) × (lookup j overlay ≡ some w)
          × (interface_eq v w ≡ some true)
    at_base bv e seen = elim (Option-cases (lookup j overlay)) [
      | inl f ↦ cc (rw (visit_absent overlay j bv f) at seen)
      | inr (ov, f) ↦
          let kept : intersect_values ov bv ≡ some (some v) =
            kept_of_written (intersect_values ov bv) v
              (rw (visit_present overlay j bv ov f) at seen) in
          let (same, equal) = intersect_values_sound ov bv v kept leaf in
          (e ∙ ap some same, ov, f, equal)
    ]

-- Two slices under one key make the intersection panic, whatever the maps hold besides.
pub intersect_maps_panics :
    (base overlay : Fields) (j : Text) (xs ys : Items)
    → lookup j base ≡ some (sequence xs)
    → lookup j overlay ≡ some (sequence ys)
    → intersect_maps base overlay ≡ none
unfolding intersect_maps
intersect_maps_panics base overlay j xs ys x y =
    intersect_loop-run overlay end base
    ∙ run_panics (intersect_visit overlay) end base j (sequence xs) x (
        visit_present overlay j (sequence xs) (sequence ys) y
        ∙ unfold intersect_values shared_value interface_eq in refl)

-- A merger whose default is `Intersection`, with no entry for the empty path, panics where both
-- configurations hold a slice under the same top-level key.
pub merge_panics :
    (m : Merger) (base overlay : Fields) (j : Text) (xs ys : Items)
    → m.default_strategy ≡ intersection
    → lookup_strategy [] m.strategy_map ≡ none
    → lookup j base ≡ some (sequence xs)
    → lookup j overlay ≡ some (sequence ys)
    → merge m base overlay ≡ none
merge_panics m base overlay j xs ys d n x y =
    merge-intersect_maps m base overlay d n ∙ intersect_maps_panics base overlay j xs ys x y
