-- ===== src/Dictutil/Lookups.antt =====
-- What each key of a merge holds.
use confii_go.Base.{◌≡◌, refl, ◌∙◌, ap, Option, none, some}
use confii_go.Base.{Text, text_eq, text_eq_iff, Bool-cases, Option-cases, inl, inr}
use confii_go.Value.{Value, Fields, mapping, nil_mapping, end, field}
use confii_go.Value.Maps.{lookup, insert, copy_fields, UniqueKeys, IsProper, IsProperMap}
use confii_go.Value.Laws.{lookup-insert, insert-IsProperMap, lookup-IsProper, as_map-IsProper}
use confii_go.Dictutil.{base_map, merge_into, merge_value, deep_merge, shallow_merge}

-- What a key holds after a loop over `overlay`, from what it held and what `overlay` gives it.
abbrev pub overlaid : (Option Value → Value → Value) → Option Value → Option Value → Option Value
overlaid f old none = old
overlaid f old (some v) = some (f old v)

-- The loop of a merge by any rule `f` for a key that both maps may have.
module _ (f : Option Value → Value → Value) where
  pub fold_with : Fields → Fields → Fields
  fold_with result end = result
  fold_with result (field k v rest) = fold_with (insert k (f (lookup k result) v) result) rest

  pub lookup-fold_with :
      (j : Text) (result overlay : Fields)
      → UniqueKeys overlay
      → lookup j (fold_with result overlay) ≡ overlaid f (lookup j result) (lookup j overlay)
  unfolding fold_with lookup
  lookup-fold_with j result end u = refl
  lookup-fold_with j result (field k v rest) u = elim (Bool-cases (text_eq k j)) [
    | inl same ↦
        let e : k ≡ j = (text_eq_iff k j).0 same in
        let missing : lookup j rest ≡ none = rw (← e) u.0 in
        rw same (
          lookup-fold_with j (insert k (f (lookup k result) v) result) rest u.1
          ∙ rw missing (lookup-insert j k _ result ∙ rw (same, e)))
    | inr differ ↦ rw differ (
        lookup-fold_with j (insert k (f (lookup k result) v) result) rest u.1
        ∙ ap (λ old. overlaid f old (lookup j rest)) (lookup-insert j k _ result ∙ rw differ))
  ]

  fold_with_absent :
      (j : Text) (result overlay : Fields)
      → lookup j result ≡ none
      → lookup j overlay ≡ none
      → lookup j (fold_with result overlay) ≡ none
  unfolding fold_with lookup
  fold_with_absent j result end a b = a
  fold_with_absent j result (field k v rest) a b = elim (Bool-cases (text_eq k j)) [
    | inl same ↦ cc (rw same at b)
    | inr differ ↦
        fold_with_absent j (insert k (f (lookup k result) v) result) rest
          (lookup-insert j k _ result ∙ rw differ a) (rw differ at b)
  ]

merge_into-fold_with :
    (result overlay : Fields) → merge_into result overlay ≡ fold_with merge_value result overlay
unfolding merge_into fold_with
merge_into-fold_with result end = refl
merge_into-fold_with result (field k v rest) =
    merge_into-fold_with (insert k (merge_value (lookup k result) v) result) rest

copy_fields-fold_with : (result m : Fields) → copy_fields result m ≡ fold_with (λ old v. v) result m
unfolding copy_fields fold_with
copy_fields-fold_with result end = refl
copy_fields-fold_with result (field k v rest) = copy_fields-fold_with (insert k v result) rest

pub lookup-copy_fields :
    (j : Text) (result m : Fields)
    → UniqueKeys m
    → lookup j (copy_fields result m) ≡ overlaid (λ old v. v) (lookup j result) (lookup j m)
lookup-copy_fields j result m u =
    rw (copy_fields-fold_with result m) (lookup-fold_with (λ old v. v) j result m u)

pub lookup-copy : (j : Text) (m : Fields) → UniqueKeys m → lookup j (copy_fields end m) ≡ lookup j m
lookup-copy j m u = lookup-copy_fields j end m u ∙ overlaid_none (lookup j m)
  where
    overlaid_none : (o : Option Value) → overlaid (λ old v. v) (lookup j end) o ≡ o
    overlaid_none none = unfold lookup in refl
    overlaid_none (some v) = refl

-- A key holds the overlay's value, merged with the base's where both are maps, or else the base's.
pub lookup-deep_merge :
    (j : Text) (base overlay : Fields)
    → UniqueKeys base
    → UniqueKeys overlay
    → lookup j (deep_merge base overlay) ≡ overlaid merge_value (lookup j base) (lookup j overlay)
unfolding deep_merge
lookup-deep_merge j base overlay u w = rw (merge_into-fold_with (copy_fields end base) overlay) (
    lookup-fold_with merge_value j _ overlay w
    ∙ ap (λ old. overlaid merge_value old (lookup j overlay)) (lookup-copy j base u))

-- A recursive merge has no key that neither map has.
pub deep_merge_absent :
    (j : Text) (base overlay : Fields)
    → lookup j base ≡ none
    → lookup j overlay ≡ none
    → lookup j (deep_merge base overlay) ≡ none
unfolding deep_merge
deep_merge_absent j base overlay a b = rw (merge_into-fold_with (copy_fields end base) overlay) (
    fold_with_absent merge_value j (copy_fields end base) overlay
      (rw (copy_fields-fold_with end base)
        (fold_with_absent (λ old v. v) j end base (unfold lookup in refl) a))
      b)

pub lookup-shallow_merge :
    (j : Text) (base overlay : Fields)
    → UniqueKeys base
    → UniqueKeys overlay
    → lookup j (shallow_merge base overlay)
      ≡ overlaid (λ old v. v) (lookup j base) (lookup j overlay)
unfolding shallow_merge
lookup-shallow_merge j base overlay u w =
    lookup-copy_fields j _ overlay w
    ∙ ap (λ old. overlaid (λ old v. v) old (lookup j overlay)) (lookup-copy j base u)

pub copy_fields-IsProperMap :
    (result m : Fields) → IsProperMap result → IsProperMap m → IsProperMap (copy_fields result m)
unfolding copy_fields
copy_fields-IsProperMap result end r h = r
copy_fields-IsProperMap result (field k v rest) r h =
    copy_fields-IsProperMap (insert k v result) rest (insert-IsProperMap k v result h.1 r) h.2

abbrev IsProperOption : Option Value → Type 0
IsProperOption none = Unit
IsProperOption (some v) = IsProper v

lookup-IsProperOption : (k : Text) (m : Fields) → IsProperMap m → IsProperOption (lookup k m)
lookup-IsProperOption k m h = go (lookup k m) refl
  where
    go : (o : Option Value) → lookup k m ≡ o → IsProperOption o
    go none e = tt
    go (some v) e = lookup-IsProper k m v h e

base_map-IsProper :
    (o : Option Value) (m : Fields) → base_map o ≡ some m → IsProperOption o → IsProperMap m
base_map-IsProper none m h p = cc
base_map-IsProper (some v) m h p = as_map-IsProper v m h p

mutual
  unfolding merge_into

  merge_into-IsProperMap :
      (result overlay : Fields)
      → IsProperMap result
      → IsProperMap overlay
      → IsProperMap (merge_into result overlay)
  merge_into-IsProperMap result end r h = r
  merge_into-IsProperMap result (field k v rest) r h =
      merge_into-IsProperMap (insert k (merge_value (lookup k result) v) result) rest
        (insert-IsProperMap k _ result
          (merge_value-IsProper (lookup k result) v (lookup-IsProperOption k result r) h.1) r)
        h.2

  merge_value-IsProper :
      (old : Option Value) (v : Value)
      → IsProperOption old
      → IsProper v
      → IsProper (merge_value old v)
  merge_value-IsProper old (mapping m) p h = elim (Option-cases (base_map old)) [
    | inl e ↦ rw (e, merge_value) h
    | inr (base, e) ↦
        rw (e, merge_value)
          (merge_into-IsProperMap (copy_fields end base) m
            (copy_fields-IsProperMap end base tt (base_map-IsProper old base e p)) h)
  ]
  merge_value-IsProper old nil_mapping p h = elim (Option-cases (base_map old)) [
    | inl e ↦ rw (e, merge_value) tt
    | inr (base, e) ↦
        rw (e, merge_value) (copy_fields-IsProperMap end base tt (base_map-IsProper old base e p))
  ]
  merge_value-IsProper old v p h = h

-- The keys of a merge are unique at every level, if those of both maps are.
pub deep_merge-IsProperMap :
    (base overlay : Fields)
    → IsProperMap base
    → IsProperMap overlay
    → IsProperMap (deep_merge base overlay)
unfolding deep_merge
deep_merge-IsProperMap base overlay b o =
    merge_into-IsProperMap _ overlay (copy_fields-IsProperMap end base tt b) o
