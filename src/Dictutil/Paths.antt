-- ===== src/Dictutil/Paths.antt =====
-- A deep merge seen through dotted paths.
use mathlib.Core.Option.{some-injective}
use confii_go.Base.{◌⊎◌, sym, ◌≡◌, ◌≢◌, refl, ◌∙◌, ap, true, Option, none, some, List, [], ◌∷◌}
use confii_go.Base.{Text, Option-cases, inl, inr}
use confii_go.Value.{Value, Fields, mapping, nil_mapping, end}
use confii_go.Value.Maps.{lookup, as_map, IsProperMap}
use confii_go.Value.Laws.{lookup-IsProper, as_map-IsProper, IsProperMap-UniqueKeys}
use confii_go.Configmap.{walk, get, parse}
use confii_go.Configmap.Reads.{walk_present, walk_missing, walk_of_as_map}
use confii_go.Configmap.Parse.{parse-cases, get_of_parts, get_refused}
use confii_go.Dictutil.{base_map, merge_value, deep_merge}
use confii_go.Dictutil.Lookups.{lookup-deep_merge}

pub merge_value_plain : (old : Option Value) (v : Value) → as_map v ≡ none → merge_value old v ≡ v
unfolding merge_value
merge_value_plain old (mapping m) h = cc
merge_value_plain old nil_mapping h = cc
merge_value_plain old v h = refl

pub merge_value_fresh :
    (old : Option Value) (v : Value) → base_map old ≡ none → merge_value old v ≡ v
unfolding merge_value
merge_value_fresh old (mapping m) h = rw (h, merge_value)
merge_value_fresh old nil_mapping h = rw (h, merge_value)
merge_value_fresh old v h = refl

pub merge_value_maps :
    (old : Option Value) (v : Value) (base overlay : Fields)
    → base_map old ≡ some base
    → as_map v ≡ some overlay
    → merge_value old v ≡ mapping (deep_merge base overlay)
unfolding merge_value deep_merge
merge_value_maps old (mapping m) base overlay h k =
    rw (h, merge_value) (ap (λ o. mapping (deep_merge base o)) (some-injective m overlay k))
merge_value_maps old nil_mapping base overlay h k =
    rw (h, merge_value) (ap (λ o. mapping (deep_merge base o)) (some-injective end overlay k))
merge_value_maps old _ base overlay h k = cc

-- The value of the overlay at the first part, and how the merge treats it.
module _ (base overlay : Fields) (b : IsProperMap base) (o : IsProperMap overlay) (p : Text) where
  lookup_present :
      (v : Value)
      → lookup p overlay ≡ some v
      → lookup p (deep_merge base overlay) ≡ some (merge_value (lookup p base) v)
  lookup_present v h =
      lookup-deep_merge p base overlay (IsProperMap-UniqueKeys base b)
        (IsProperMap-UniqueKeys overlay o)
      ∙ rw h

  lookup_absent : lookup p overlay ≡ none → lookup p (deep_merge base overlay) ≡ lookup p base
  lookup_absent h =
      lookup-deep_merge p base overlay (IsProperMap-UniqueKeys base b)
        (IsProperMap-UniqueKeys overlay o)
      ∙ rw h

-- A value that is no map has nothing below it.
walk_plain : (v : Value) (p : Text) (ps : List Text) → as_map v ≡ none → walk v (p ∷ ps) ≡ none
unfolding walk
walk_plain v p ps h = rw h

base_map-IsProper :
    (p : Text) (m n : Fields) → IsProperMap m → base_map (lookup p m) ≡ some n → IsProperMap n
base_map-IsProper p m n h e = go (lookup p m) refl e
  where
    go : (r : Option Value) → lookup p m ≡ r → base_map r ≡ some n → IsProperMap n
    go none x y = cc
    go (some v) x y = as_map-IsProper v n y (lookup-IsProper p m v h x)

walk_no_base :
    (p q : Text) (ps : List Text) (base : Fields)
    → base_map (lookup p base) ≡ none
    → walk (mapping base) (p ∷ q ∷ ps) ≡ none
walk_no_base p q ps base g = elim (Option-cases (lookup p base)) [
  | inl x ↦ walk_missing p (q ∷ ps) base x
  | inr (w, x) ↦ walk_present p (q ∷ ps) base w x ∙ walk_plain w q ps (rw x at g)
]

walk_base :
    (p q : Text) (ps : List Text) (base m : Fields)
    → base_map (lookup p base) ≡ some m
    → walk (mapping m) (q ∷ ps) ≡ walk (mapping base) (p ∷ q ∷ ps)
walk_base p q ps base m g = elim (Option-cases (lookup p base)) [
  | inl x ↦ cc (ap base_map x)
  | inr (w, x) ↦
      walk_of_as_map w m (q ∷ ps) (rw x at g) (λ e. cc) ∙ sym (walk_present p (q ∷ ps) base w x)
]

walk_one :
    (p : Text) (m : Fields) (v : Value) → lookup p m ≡ some v → walk (mapping m) (p ∷ []) ≡ some v
unfolding walk
walk_one p m v x = rw x

walk_leaf :
    (parts : List Text) (base overlay : Fields) (v : Value)
    → IsProperMap base
    → IsProperMap overlay
    → walk (mapping overlay) parts ≡ some v
    → as_map v ≡ none
    → walk (mapping (deep_merge base overlay)) parts ≡ some v
walk_leaf [] base overlay v b o h k =
    cc (ap as_map (some-injective (mapping overlay) v (unfold walk in h)))
walk_leaf (p ∷ []) base overlay v b o h k = elim (Option-cases (lookup p overlay)) [
  | inl x ↦ cc (walk_missing p [] overlay x)
  | inr (w, x) ↦
      let same : w ≡ v = some-injective w v (sym (walk_one p overlay w x) ∙ h) in
      walk_one p (deep_merge base overlay) _ (lookup_present base overlay b o p w x)
      ∙ ap some (ap (merge_value (lookup p base)) same ∙ merge_value_plain (lookup p base) v k)
]
walk_leaf (p ∷ q ∷ ps) base overlay v b o h k = elim (Option-cases (lookup p overlay)) [
  | inl x ↦ cc (walk_missing p (q ∷ ps) overlay x)
  | inr (w, x) ↦
      let found : walk w (q ∷ ps) ≡ some v = sym (walk_present p (q ∷ ps) overlay w x) ∙ h in
      walk_present p (q ∷ ps) (deep_merge base overlay) _ (lookup_present base overlay b o p w x)
      ∙ elim (Option-cases (as_map w)) [
        | inl f ↦ cc (walk_plain w q ps f)
        | inr (n, f) ↦ elim (Option-cases (base_map (lookup p base))) [
          | inl g ↦ rw (merge_value_fresh (lookup p base) w g) found
          | inr (m, g) ↦ rw (merge_value_maps (lookup p base) w m n g f) (
              walk_leaf (q ∷ ps) m n v (base_map-IsProper p base m b g)
                (as_map-IsProper w n f (lookup-IsProper p overlay w o x))
                (walk_of_as_map w n (q ∷ ps) f (λ e. cc) ∙ found) k)
        ]
      ]
]

-- The overlay says nothing of a path: following its parts, a map lacks one, and no other value
-- stands on the way.
abbrev pub Silent : Fields → List Text → Type 0
Silent overlay [] = ⊥
Silent overlay (p ∷ ps) =
    (lookup p overlay ≡ none)
    ⊎ ((w : Value) × (n : Fields) × (lookup p overlay ≡ some w) × (as_map w ≡ some n) × Silent n ps)

walk-Silent-none :
    (parts : List Text) (overlay : Fields)
    → Silent overlay parts
    → walk (mapping overlay) parts ≡ none
walk-Silent-none [] overlay h = absurd h
walk-Silent-none (p ∷ ps) overlay (inl x) = walk_missing p ps overlay x
walk-Silent-none (p ∷ ps) overlay (inr (w, n, x, f, h)) =
    walk_present p ps overlay w x
    ∙ sym (walk_of_as_map w n ps f (Silent-ne-nil ps n h))
    ∙ walk-Silent-none ps n h
  where
    Silent-ne-nil : (qs : List Text) (m : Fields) → Silent m qs → qs ≢ []
    Silent-ne-nil [] m z = absurd z
    Silent-ne-nil (q ∷ qs) m z = λ e. cc

walk-Silent :
    (parts : List Text) (base overlay : Fields)
    → IsProperMap base
    → IsProperMap overlay
    → Silent overlay parts
    → walk (mapping (deep_merge base overlay)) parts ≡ walk (mapping base) parts
walk-Silent [] base overlay b o h = absurd h
walk-Silent (p ∷ ps) base overlay b o (inl x) =
    unfold walk in rw (lookup_absent base overlay b o p x)
walk-Silent (p ∷ []) base overlay b o (inr (w, n, x, f, h)) = absurd h
walk-Silent (p ∷ q ∷ ps) base overlay b o (inr (w, n, x, f, h)) =
    walk_present p (q ∷ ps) (deep_merge base overlay) _ (lookup_present base overlay b o p w x)
    ∙ elim (Option-cases (base_map (lookup p base))) [
      | inl g ↦ rw (merge_value_fresh (lookup p base) w g) (
          sym (walk_of_as_map w n (q ∷ ps) f (λ e. cc))
          ∙ walk-Silent-none (q ∷ ps) n h
          ∙ sym (walk_no_base p q ps base g))
      | inr (m, g) ↦ rw (merge_value_maps (lookup p base) w m n g f) (
          walk-Silent (q ∷ ps) m n (base_map-IsProper p base m b g)
            (as_map-IsProper w n f (lookup-IsProper p overlay w o x)) h
          ∙ walk_base p q ps base m g)
    ]

-- On maps without repeated keys, at a path where the overlay holds a value that is no map, the
-- merge holds that value.
pub get-deep_merge_leaf :
    (base overlay : Fields) (path : Text) (v : Value)
    → IsProperMap base
    → IsProperMap overlay
    → get (some overlay) path ≡ some v
    → as_map v ≡ none
    → get (some (deep_merge base overlay)) path ≡ some v
get-deep_merge_leaf base overlay path v b o h k = elim (parse-cases path) [
  | inl (parts, x) ↦ cc (get_refused overlay path parts x)
  | inr (p, ps, x) ↦
      get_of_parts (deep_merge base overlay) path (p ∷ ps) x
      ∙ walk_leaf (p ∷ ps) base overlay v b o (sym (get_of_parts overlay path (p ∷ ps) x) ∙ h) k
]

-- On maps without repeated keys, a valid path of which the overlay says nothing reads after the
-- merge as it read in the base.
pub get-deep_merge-Silent :
    (base overlay : Fields) (path : Text) (parts : List Text)
    → IsProperMap base
    → IsProperMap overlay
    → parse path ≡ (parts, true)
    → Silent overlay parts
    → get (some (deep_merge base overlay)) path ≡ get (some base) path
get-deep_merge-Silent base overlay path parts b o x h =
    get_of_parts (deep_merge base overlay) path parts x
    ∙ walk-Silent parts base overlay b o h
    ∙ sym (get_of_parts base path parts x)
