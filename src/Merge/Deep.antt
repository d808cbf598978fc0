-- ===== src/Merge/Deep.antt =====
-- merge/strategy.go beside internal/dictutil/merge.go: mergers that merge every path deeply.
use mathlib.Core.Option
use confii_go.Base.{sym, ◌⊎◌, ◌≡◌, refl, ◌∙◌, ap, Option, none, some, List, [], ◌∷◌, arith, ◌>>=◌}
use confii_go.Base.{Text, text_eq, text_eq_iff, text_eq_refl, Option-cases, Bool-cases, inl, inr}
use confii_go.Value.{Value, Fields, mapping, nil_mapping, end, field}
use confii_go.Value.Maps.{lookup, insert, as_map, copy_fields, IsProper, IsProperMap}
use confii_go.Value.Laws.{lookup-insert, IsProperMap-UniqueKeys, lookup-IsProper, as_map-IsProper}
use confii_go.Configmap.{extend}
use confii_go.Dictutil
use confii_go.Dictutil.{base_map, merge_into, merge_value}
use confii_go.Dictutil.Lookups.{lookup-copy}
use confii_go.Dictutil.Paths.{merge_value_plain, merge_value_fresh, merge_value_maps}
use confii_go.Merge.Steps.{merge_loop_done, merge_loop_new, merge_loop_shared}
use confii_go.Merge.Steps.{
  apply_mapping, apply_nil_mapping, apply_plain, on_maps_fresh, on_maps_both, on_maps_plain,
}
use confii_go.Merge.{on_maps, apply_switch, at_level, merge_loop, apply_strategy, merge_at, merge}
use confii_go.Merge.Resolve.{Merger, Strategy, deep_merge, union, lookup_strategy, resolve_strategy}
use confii_go.Merge.Nearest.{resolve_default, NoneLonger}

-- The two strategies that merge maps by recursion.
abbrev pub IsDeep : Strategy → Type 0
IsDeep s = (s ≡ deep_merge) ⊎ (s ≡ union)

switch_deep :
    (f : Fields → Option Fields) (s : Strategy) (old v : Value)
    → IsDeep s
    → apply_switch f s old v ≡ on_maps old v (λ b o. Option.map mapping (f b))
unfolding apply_switch
switch_deep f s old v (inl d) = rw d
switch_deep f s old v (inr d) = rw d

merge_into_done : (result : Fields) → merge_into result end ≡ result
unfolding merge_into
merge_into_done result = refl

merge_into_round :
    (result : Fields) (k : Text) (v : Value) (rest : Fields) {w : Value}
    → merge_value (lookup k result) v ≡ w
    → merge_into result (field k v rest) ≡ merge_into (insert k w result) rest
unfolding merge_into
merge_into_round result k v rest e = ap (λ w. merge_into (insert k w result) rest) e

deep_mapping :
    (n o : Fields) → mapping (merge_into (copy_fields end n) o) ≡ mapping (Dictutil.deep_merge n o)
unfolding Dictutil.deep_merge
deep_mapping n o = refl

module _ (m : Merger) (deep : (path : Text) → IsDeep (resolve_strategy m path)) where
  level :
      (base overlay : Fields) (path : Text) (loop : Fields → Option Fields)
      → at_level m base overlay path loop ≡ loop (copy_fields end base)
  unfolding at_level
  level base overlay path loop = elim (deep path) [
    | inl d ↦ rw (d, at_level)
    | inr d ↦ rw (d, at_level)
  ]

  abbrev Agrees : Fields → Fields → Fields → Type 0
  Agrees base result overlay =
      (k : Text) (v : Value) → lookup k overlay ≡ some v → lookup k result ≡ lookup k base

  -- A write of an earlier key keeps the agreement on the later ones.
  Agrees-insert :
      (base result overlay : Fields) (k : Text) (v w : Value)
      → lookup k overlay ≡ none
      → Agrees base result (field k v overlay)
      → Agrees base (insert k w result) overlay
  unfolding lookup
  Agrees-insert base result overlay k v w fresh h j u x = elim (Bool-cases (text_eq k j)) [
    | inl same ↦ let e : k ≡ j = (text_eq_iff k j).0 same in cc
    | inr differ ↦ lookup-insert j k w result ∙ rw differ (h j u (rw differ x))
  ]

  Agrees-here :
      (base result overlay : Fields) (k : Text) (v : Value)
      → Agrees base result (field k v overlay)
      → lookup k result ≡ lookup k base
  unfolding lookup
  Agrees-here base result overlay k v h = h k v (rw text_eq_refl)

  deep_round :
      (base : Fields) (prefix : Text) (result : Fields) (k : Text) (v : Value) (rest : Fields)
      → IsProperMap base
      → Agrees base result (field k v rest)
      → ((old : Value)
          → IsProper old
          → apply_strategy m (resolve_strategy m (extend prefix k)) old (extend prefix k) v
            ≡ some (merge_value (some old) v))
      → ((w : Value)
          → merge_loop m base prefix (insert k w result) rest
            ≡ some (merge_into (insert k w result) rest))
      → merge_loop m base prefix result (field k v rest) ≡ some (merge_into result (field k v rest))
  deep_round base prefix result k v rest b h applied later = elim (Option-cases (lookup k base)) [
    | inl e ↦
        merge_loop_new m base prefix result k v rest e
        ∙ later v
        ∙ ap some (
            sym (
              merge_into_round result k v rest (
                merge_value_fresh (lookup k result) v
                  (rw (Agrees-here base result rest k v h ∙ e) refl))))
    | inr (old, e) ↦
        merge_loop_shared m base prefix result k v rest old e
        ∙ ap (λ o. o >>= λ new. merge_loop m base prefix (insert k new result) rest)
            (applied old (lookup-IsProper k base old b e))
        ∙ later (merge_value (some old) v)
        ∙ ap some (
            sym (
              merge_into_round result k v rest
                (ap (λ o. merge_value o v) (Agrees-here base result rest k v h ∙ e))))
  ]

  deep_maps :
      (path : Text) (old v : Value) (o : Fields)
      → IsProper old
      → as_map v ≡ some o
      → (loop : Fields → Fields → Option Fields)
      → ((b : Fields)
          → IsProperMap b
          → loop b (copy_fields end b) ≡ some (merge_into (copy_fields end b) o))
      → apply_switch (λ b. at_level m b o path (loop b)) (resolve_strategy m path) old v
        ≡ some (merge_value (some old) v)
  deep_maps path old v o p g loop done =
      switch_deep (λ b. at_level m b o path (loop b)) (resolve_strategy m path) old v (deep path)
      ∙ elim (Option-cases (as_map old)) [
        | inl e ↦ on_maps_fresh old v _ e ∙ ap some (sym (merge_value_fresh (some old) v e))
        | inr (n, e) ↦
            on_maps_both old v _ n o e g
            ∙ ap (Option.map mapping) (level n o path (loop n) ∙ done n (as_map-IsProper old n e p))
            ∙ ap some (deep_mapping n o ∙ sym (merge_value_maps (some old) v n o e g))
      ]

  mutual
    deep_loop :
        (base : Fields) (prefix : Text) (result overlay : Fields)
        → IsProperMap base
        → IsProperMap overlay
        → Agrees base result overlay
        → merge_loop m base prefix result overlay ≡ some (merge_into result overlay)
    deep_loop base prefix result end b o h =
        merge_loop_done m base prefix result ∙ ap some (sym (merge_into_done result))
    deep_loop base prefix result (field k v rest) b o h =
        deep_round base prefix result k v rest b h (deep_apply (extend prefix k) v o.1) (λ w.
          deep_loop base prefix (insert k w result) rest b o.2
            (Agrees-insert base result rest k v w o.0 h))

    deep_apply :
        (path : Text) (v : Value)
        → IsProper v
        → (old : Value) → IsProper old
        → apply_strategy m (resolve_strategy m path) old path v ≡ some (merge_value (some old) v)
    deep_apply path (mapping o) q old p =
        apply_mapping m (resolve_strategy m path) old path o
        ∙ deep_maps path old (mapping o) o p refl _ (λ b proper.
          deep_loop b path (copy_fields end b) o proper q
            (λ k v x. lookup-copy k b (IsProperMap-UniqueKeys b proper)))
    deep_apply path nil_mapping q old p =
        apply_nil_mapping m (resolve_strategy m path) old path
        ∙ deep_maps path old nil_mapping end p refl _
            (λ b proper. ap some (sym (merge_into_done (copy_fields end b))))
    deep_apply path v q old p =
        apply_plain m (resolve_strategy m path) old path v refl
        ∙ switch_deep (λ b. some b) (resolve_strategy m path) old v (deep path)
        ∙ on_maps_plain old v _ refl
        ∙ ap some (sym (merge_value_plain (some old) v refl))

IsDeep-everywhere :
    (m : Merger)
    → IsDeep m.default_strategy
    → m.strategy_map ≡ []
    → (path : Text) → IsDeep (resolve_strategy m path)
IsDeep-everywhere m d n path =
    let (own, above) = no_entries m.strategy_map n in
    let is_default = resolve_default m path own above in
    elim d [ inl e ↦ inl (is_default ∙ e) | inr e ↦ inr (is_default ∙ e) ]
  where
    no_entries :
        (entries : List (Text × Strategy))
        → entries ≡ []
        → (lookup_strategy path entries ≡ none) × NoneLonger path 0 entries
    no_entries [] e = (unfold lookup_strategy in refl, tt)
    no_entries (x ∷ entries) e = cc

pub merge_of_deep :
    (m : Merger) (base overlay : Fields)
    → IsDeep m.default_strategy
    → merge m base overlay ≡ merge_at m base overlay []
unfolding merge
merge_of_deep m base overlay (inl d) = ground arith
merge_of_deep m base overlay (inr d) = ground arith

-- On maps without repeated keys, a merger with a deep or union default and no entries does not
-- panic, and merges as `DeepMerge` does.
pub merge-deep_merge :
    (m : Merger) (base overlay : Fields)
    → IsDeep m.default_strategy
    → m.strategy_map ≡ []
    → IsProperMap base
    → IsProperMap overlay
    → merge m base overlay ≡ some (Dictutil.deep_merge base overlay)
unfolding merge_at Dictutil.deep_merge
merge-deep_merge m base overlay d n b o =
    let deep = IsDeep-everywhere m d n in
    merge_of_deep m base overlay d
    ∙ level m deep base overlay [] (λ r. merge_loop m base [] r overlay)
    ∙ deep_loop m deep base [] (copy_fields end base) overlay b o
        (λ k v x. lookup-copy k base (IsProperMap-UniqueKeys base b))
