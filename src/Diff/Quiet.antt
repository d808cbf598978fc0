-- ===== src/Diff/Quiet.antt =====
-- diff/differ.go: a configuration compared with itself.
use mathlib.Core.Option.{some-injective}
use confii_go.Base.{
  sym, ◌≡◌, ◌≢◌, refl, ◌∙◌, ap, true, false, none, some, List, [], ◌∷◌, ◌++◌, arith, inl, inr,
}
use confii_go.Base.{
  Text, text_eq, text_eq_iff, text_eq_refl, contains_text, contains-append, Bool-cases,
  Option-cases,
}
use confii_go.Base.Sort.{sort_texts, contains-sort_texts}
use confii_go.Value.{
  Value, Fields, null, boolean, integer, float, text, sequence, mapping, nil_mapping, end, field,
}
use confii_go.Value.Maps.{lookup, keys, as_map}
use confii_go.Configmap.{extend}
use confii_go.Diff.{
  Diffs, none_left, distinct, sorted_keys, equal, diff_both, diff_keys, find_nested, diff_nested,
  diff_maps, diff,
}

contains-distinct : (k : Text) (ks : List Text) → contains_text (distinct ks) k ≡ contains_text ks k
unfolding distinct contains_text
contains-distinct k [] = refl
contains-distinct k (j ∷ ks) = ground (arith, contains-distinct k ks, text_eq_iff j k)

lookup_of_contains-keys :
    (k : Text) (m : Fields) → contains_text (keys m) k ≡ true → lookup k m ≢ none
unfolding contains_text keys lookup
lookup_of_contains-keys k end h = cc
lookup_of_contains-keys k (field j v m) h = elim (Bool-cases (text_eq j k)) [
  | inl e ↦ rw e (λ z. cc)
  | inr e ↦ rw e (lookup_of_contains-keys k m (ground arith))
]

module _ (marshal : Value → Text) where
  lookup-end : (k : Text) (v : Value) → lookup k end ≢ some v
  unfolding lookup
  lookup-end k v e = cc

  find_nested-lookup :
      (k : Text) (m : Fields) (v : Value)
      → lookup k m ≡ some v
      → find_nested marshal m k ≡ some (v, λ c2 path. diff_nested marshal v c2 path)
  unfolding lookup find_nested
  find_nested-lookup k end v h = cc
  find_nested-lookup k (field j w m) v h = elim (Bool-cases (text_eq j k)) [
    | inl e ↦ rw e (
        ap (λ u. some (u, λ c2 path. diff_nested marshal u c2 path))
          (some-injective w v (rw e at h)))
    | inr e ↦ rw e (find_nested-lookup k m v (rw e at h))
  ]

  equal_refl : (v : Value) → equal marshal v v ≡ true
  unfolding equal
  equal_refl v = text_eq_refl (marshal v)

  -- Two equal values make no difference, if their maps make none.
  diff_both_same :
      (k path : Text) (v : Value) (nested : Fields → Diffs) (later : Diffs)
      → ((m : Fields) → as_map v ≡ some m → nested m ≡ none_left)
      → diff_both marshal k path v v nested later ≡ later
  unfolding diff_both
  diff_both_same k path v nested later h = elim (Option-cases (as_map v)) [
    | inl e ↦ rw (e, diff_both) (rw (equal_refl v) refl)
    | inr (m, e) ↦ rw (e, diff_both) (rw (e, diff_both) (rw (h m e, diff_both) refl))
  ]

  -- One step of the loop, at a key that both maps hold with the same value.
  diff_keys_step :
      (c : Fields) (prefix k : Text) (ks : List Text) (v : Value)
      → lookup k c ≡ some v
      → diff_keys marshal (λ j. find_nested marshal c j) c prefix (k ∷ ks)
        ≡ diff_both marshal k
            (extend prefix k)
            v
            v
            (λ m2. diff_nested marshal v m2 (extend prefix k))
            (diff_keys marshal (λ j. find_nested marshal c j) c prefix ks)
  unfolding diff_keys
  diff_keys_step c prefix k ks v e =
      rw (find_nested-lookup k c v e, diff_keys) (rw (e, diff_keys) refl)

  contains_head : (k : Text) (ks : List Text) → contains_text (k ∷ ks) k ≡ true
  unfolding contains_text
  contains_head k ks = rw (text_eq_refl k) refl

  contains_tail :
      (k j : Text) (ks : List Text) → contains_text ks j ≡ true → contains_text (k ∷ ks) j ≡ true
  unfolding contains_text
  contains_tail k j ks h = ground arith

  diff_keys_quiet :
      (c : Fields) (prefix : Text) (ks : List Text)
      → ((k : Text) → contains_text ks k ≡ true → lookup k c ≢ none)
      → ((k : Text) (v : Value) (m : Fields) (path : Text)
          → lookup k c ≡ some v
          → as_map v ≡ some m
          → diff_nested marshal v m path ≡ none_left)
      → diff_keys marshal (λ k. find_nested marshal c k) c prefix ks ≡ none_left
  diff_keys_quiet c prefix [] has nested = unfold diff_keys in refl
  diff_keys_quiet c prefix (k ∷ ks) has nested =
      let later = diff_keys_quiet c prefix ks (λ j x. has j (contains_tail k j ks x)) nested in
      elim (Option-cases (lookup k c)) [
        | inl e ↦ absurd (has k (contains_head k ks) e)
        | inr (v, e) ↦
            diff_keys_step c prefix k ks v e
            ∙ diff_both_same k (extend prefix k) v
                (λ m2. diff_nested marshal v m2 (extend prefix k))
                (diff_keys marshal (λ j. find_nested marshal c j) c prefix ks)
                (λ m x. nested k v m (extend prefix k) e x)
            ∙ later
      ]

  sorted_keys_present :
      (c : Fields) (k : Text) → contains_text (sorted_keys c c) k ≡ true → lookup k c ≢ none
  unfolding sorted_keys
  sorted_keys_present c k h =
      let sorted = contains-sort_texts k (distinct (keys c ++ keys c)) in
      let once = contains-distinct k (keys c ++ keys c) in
      let both = contains-append k (keys c) (keys c) in lookup_of_contains-keys k c (ground arith)

  diff_nested_mapping :
      (c m : Fields) (path : Text)
      → diff_nested marshal (mapping c) m path
        ≡ diff_keys marshal (λ k. find_nested marshal c k) m path (sorted_keys c m)
  unfolding diff_nested
  diff_nested_mapping c m path = refl

  diff_nested_nil : (path : Text) → diff_nested marshal nil_mapping end path ≡ none_left
  unfolding diff_nested sorted_keys keys distinct sort_texts diff_keys
  diff_nested_nil path = refl

  lookup_head :
      (k j : Text) (w v : Value) (rest : Fields)
      → text_eq j k ≡ true
      → lookup k (field j w rest) ≡ some v
      → w ≡ v
  unfolding lookup
  lookup_head k j w v rest e h = some-injective w v (rw e at h)

  lookup_tail :
      (k j : Text) (w v : Value) (rest : Fields)
      → text_eq j k ≡ false
      → lookup k (field j w rest) ≡ some v
      → lookup k rest ≡ some v
  unfolding lookup
  lookup_tail k j w v rest e h = rw e at h

  -- The map of a value has no differences from itself.
  mutual
    nested_quiet :
        (v : Value) (m : Fields) (path : Text)
        → as_map v ≡ some m
        → diff_nested marshal v m path ≡ none_left
    nested_quiet null m path e = cc
    nested_quiet (boolean b) m path e = cc
    nested_quiet (integer i) m path e = cc
    nested_quiet (float f) m path e = cc
    nested_quiet (text t) m path e = cc
    nested_quiet (sequence xs) m path e = cc
    nested_quiet nil_mapping m path e =
        let same : end ≡ m = some-injective end m e in
        ap (λ x. diff_nested marshal nil_mapping x path) (sym same) ∙ diff_nested_nil path
    nested_quiet (mapping c) m path e =
        let same : c ≡ m = some-injective c m e in
        ap (λ x. diff_nested marshal (mapping c) x path) (sym same)
        ∙ diff_nested_mapping c c path
        ∙ diff_keys_quiet c path (sorted_keys c c) (sorted_keys_present c)
            (λ k v n p. field_quiet c k v n p)

    field_quiet :
        (c : Fields) (k : Text) (v : Value) (m : Fields) (path : Text)
        → lookup k c ≡ some v
        → as_map v ≡ some m
        → diff_nested marshal v m path ≡ none_left
    field_quiet end k v m path e x = absurd (lookup-end k v e)
    field_quiet (field j w rest) k v m path e x = elim (Bool-cases (text_eq j k)) [
      | inl here ↦
          let same = lookup_head k j w v rest here e in
          ap (λ u. diff_nested marshal u m path) (sym same)
          ∙ nested_quiet w m path (ap as_map same ∙ x)
      | inr there ↦ field_quiet rest k v m path (lookup_tail k j w v rest there e) x
    ]

  -- A configuration does not differ from itself, whatever JSON text its values have.
  pub diff_self : (c : Fields) → diff marshal c c ≡ none_left
  unfolding diff diff_maps
  diff_self c =
      diff_keys_quiet c [] (sorted_keys c c) (sorted_keys_present c)
        (λ k v n p. field_quiet c k v n p)
