-- ===== src/Merge/Entries.antt =====
-- merge/strategy.go: entries of the strategy map for nested paths, and of `Intersection` for one key.
use mathlib.Core.Option
use mathlib.Core.Option.{some-injective}
use confii_go.Base.{sym, ◌≡◌, ◌≢◌, refl, ◌∙◌, ap, true, false, none, some, List, [], ◌∷◌, arith}
use confii_go.Base.{
  All, Text, text_eq, text_eq_iff, has_prefix, every, Option-cases, Bool-cases, inl, inr,
}
use confii_go.Base.Split.{lacks}
use confii_go.Value.{Value, Fields, null, mapping, nil_mapping, end, field}
use confii_go.Value.Maps.{lookup, as_map, keys, UniqueKeys}
use confii_go.Value.Equality.{interface_eq}
use confii_go.Configmap.{dot}
use confii_go.Merge.{apply_switch, at_level, merge_loop, apply_strategy, merge_at, merge}
use confii_go.Merge.Resolve.{
  Merger, Strategy, replace, intersection, lookup_strategy, is_below, resolve_strategy,
}
use confii_go.Merge.Intersect.{intersect, shared_value, common_values}
use confii_go.Merge.Nearest.{NoneLonger, resolve_default, resolve_root, resolve_own}
use confii_go.Merge.Deep.{IsDeep, merge_of_deep}
use confii_go.Merge.Runs.{run, lookup-run, run_total}
use confii_go.Merge.Levels.{
  merge_visit, visit_new, visit_shared, merge_loop-run, initial, at_level-initial, lookup-merge_at,
}

-- A key without a dot lies below no path that has one.
not_below_of_lacks : (k p : Text) → lacks dot k ≡ true → is_below k p ≡ false
unfolding has_prefix
not_below_of_lacks [] [] h = refl
not_below_of_lacks [] (d ∷ p) h = refl
not_below_of_lacks (c ∷ k) [] h = ground arith
not_below_of_lacks (c ∷ k) (d ∷ p) h = ground (arith, not_below_of_lacks k p)

dotted_entries :
    (k : Text) (entries : List (Text × Strategy))
    → lacks dot k ≡ true
    → All (λ e. lacks dot e.0 ≡ false) entries
    → (lookup_strategy k entries ≡ none) × NoneLonger k 0 entries
dotted_entries k [] h d = (unfold lookup_strategy in refl, tt)
dotted_entries k ((p, s) ∷ entries) h d =
    let (own, above) = dotted_entries k entries h d.1 in
    let differ : text_eq p k ≡ false = elim (Bool-cases (text_eq p k)) [
      | inl e ↦ cc (ap (lacks dot) ((text_eq_iff p k).0 e))
      | inr e ↦ e
    ] in
    (lookup_strategy_ne p s entries differ ∙ own, (λ below. cc (not_below_of_lacks k p h), above))
  where
    lookup_strategy_ne :
        (p : Text) (s : Strategy) (entries : List (Text × Strategy))
        → text_eq p k ≡ false
        → lookup_strategy k ((p, s) ∷ entries) ≡ lookup_strategy k entries
    lookup_strategy_ne p s entries differ = unfold lookup_strategy in rw differ

apply_replace :
    (m : Merger) (old : Value) (path : Text) (v : Value)
    → apply_strategy m replace old path v ≡ some v
unfolding merge_loop apply_switch
apply_replace m old path (mapping o) = refl
apply_replace m old path nil_mapping = refl
apply_replace m old path v = refl

apply_intersection :
    (m : Merger) (old : Value) (path : Text) (v : Value)
    → apply_strategy m intersection old path v ≡ intersect old v
unfolding merge_loop apply_switch
apply_intersection m old path (mapping o) = refl
apply_intersection m old path nil_mapping = refl
apply_intersection m old path v = refl

resolve_undotted :
    (m : Merger) (k : Text)
    → All (λ e. lacks dot e.0 ≡ false) m.strategy_map
    → lacks dot k ≡ true
    → resolve_strategy m k ≡ m.default_strategy
resolve_undotted m k entries plain =
    let (own, above) = dotted_entries k m.strategy_map plain entries in
    resolve_default m k own above

keys_lack :
    (k : Text) (v : Value) (m : Fields)
    → every (lacks dot) (keys m) ≡ true
    → lookup k m ≡ some v
    → lacks dot k ≡ true
unfolding keys lookup
keys_lack k v end h x = cc
keys_lack k v (field j w m) h x = elim (Bool-cases (text_eq j k)) [
  | inl same ↦ let e : j ≡ k = (text_eq_iff j k).0 same in rw (← e) (ground arith)
  | inr differ ↦ keys_lack k v m (ground arith) (rw differ at x)
]

replace_visit :
    (m : Merger) (base : Fields) (k : Text) (v : Value)
    → resolve_strategy m k ≡ replace
    → merge_visit m base [] k v ≡ some (some v)
replace_visit m base k v e = elim (Option-cases (lookup k base)) [
  | inl f ↦ visit_new m base [] k v f
  | inr (old, f) ↦
      visit_shared m base [] k v old f
      ∙ ap (Option.map some) (ap (λ s. apply_strategy m s old k v) e ∙ apply_replace m old k v)
]

merge_of_replace :
    (m : Merger) (base overlay : Fields)
    → m.default_strategy ≡ replace
    → resolve_strategy m [] ≡ replace
    → merge m base overlay ≡ run (merge_visit m base []) end overlay
merge_of_replace m base overlay d e =
    root d
    ∙ at_level-initial m base overlay [] (λ r. merge_loop m base [] r overlay) (λ z. cc)
    ∙ merge_loop-run m base [] (initial (resolve_strategy m []) base) overlay
    ∙ ap (λ s. run (merge_visit m base []) (initial s base) overlay) e
  where
    root :
        m.default_strategy ≡ replace
        → merge m base overlay ≡ at_level m base overlay [] (λ r. merge_loop m base [] r overlay)
    root y = unfold merge merge_at in ground arith

lookup_end : (j : Text) → lookup j end ≡ none
unfolding lookup
lookup_end j = refl

-- Under a `Replace` default with entries for nested paths alone, and an overlay whose keys hold no
-- dot and are not repeated, a merge gives the overlay: each key has the overlay's value, so that no
-- entry for a path below a key has an effect.
pub replace_hides_nested_entries :
    (m : Merger) (base overlay : Fields)
    → m.default_strategy ≡ replace
    → All (λ e. lacks dot e.0 ≡ false) m.strategy_map
    → every (lacks dot) (keys overlay) ≡ true
    → UniqueKeys overlay
    → (r : Fields) × (merge m base overlay ≡ some r) × ((j : Text) → lookup j r ≡ lookup j overlay)
replace_hides_nested_entries m base overlay d entries plain u =
    let visits : (k : Text) (v : Value)
        → lookup k overlay ≡ some v
        → merge_visit m base [] k v ≡ some (some v) =
      λ k v x.
        replace_visit m base k v
          (resolve_undotted m k entries (keys_lack k v overlay plain x) ∙ d) in
    let (r, ran) =
      run_total (merge_visit m base []) end overlay (λ k v x. (some v, visits k v x)) u in
    (
      r,
      merge_of_replace m base overlay d (resolve_undotted m [] entries refl ∙ d) ∙ ran,
      λ j. at_key j r ran visits,
    )
  where
    at_key :
        (j : Text) (r : Fields)
        → run (merge_visit m base []) end overlay ≡ some r
        → ((k : Text) (v : Value)
            → lookup k overlay ≡ some v
            → merge_visit m base [] k v ≡ some (some v))
        → lookup j r ≡ lookup j overlay
    at_key j r ran visits =
        let seen = lookup-run (merge_visit m base []) j end overlay r u ran in
        elim (Option-cases (lookup j overlay)) [
          | inl e ↦ sym (some-injective _ _ (rw e at seen)) ∙ lookup_end j ∙ sym e
          | inr (v, e) ↦ sym (some-injective _ _ (rw (e, visits j v e) at seen)) ∙ sym e
        ]

-- `intersect` on two unequal values, of which the first is no map.
intersect_unequal :
    (old v : Value)
    → as_map old ≡ none
    → interface_eq old v ≡ some false
    → intersect old v ≡ some null
unfolding intersect
intersect_unequal old v leaf differ = rw (plain old leaf) (unfold shared_value in rw differ)
  where
    plain : (u : Value) → as_map u ≡ none → common_values v u ≡ shared_value u v
    plain (mapping o) x = cc
    plain nil_mapping x = cc
    plain u x = unfold common_values in refl

-- Under a deep or union default without an entry for the empty path, and an overlay without
-- repeated keys, an entry of `Intersection` for one key leaves nil there where both maps hold it
-- with unequal values, the base's being no map, if the merge does not panic.
pub intersection_entry_leaves_nil :
    (m : Merger) (base overlay r : Fields) (k : Text) (old v : Value)
    → IsDeep m.default_strategy
    → lookup_strategy [] m.strategy_map ≡ none
    → lookup_strategy k m.strategy_map ≡ some intersection
    → UniqueKeys overlay
    → lookup k base ≡ some old
    → lookup k overlay ≡ some v
    → as_map old ≡ none
    → interface_eq old v ≡ some false
    → merge m base overlay ≡ some r
    → lookup k r ≡ some null
intersection_entry_leaves_nil m base overlay r k old v d root own u x y leaf differ h =
    let at_root : resolve_strategy m [] ≢ intersection =
      λ e. not_intersection m.default_strategy d (sym (resolve_root m root) ∙ e) in
    let merged : merge_at m base overlay [] ≡ some r = sym (merge_of_deep m base overlay d) ∙ h in
    let seen = lookup-merge_at m base overlay r [] k u at_root merged in
    let applied : apply_strategy m (resolve_strategy m k) old k v ≡ some null =
      ap (λ s. apply_strategy m s old k v) (resolve_own m k intersection own)
      ∙ apply_intersection m old k v
      ∙ intersect_unequal old v leaf differ in
    sym (some-injective _ _ (rw (y, x, applied) at seen))
  where
    not_intersection : (s : Strategy) → IsDeep s → s ≢ intersection
    not_intersection s (inl e) f = cc
    not_intersection s (inr e) f = cc
