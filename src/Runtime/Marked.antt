-- ===== src/Runtime/Marked.antt =====
-- config_inspect.go and config_sensitive.go: the paths at which a configuration holds a reference to a
-- secret, described by the keys that lead to its texts.
use mathlib.Core.Path.{subst}
use confii_go.Base.{
  ◌≡◌, refl, sym, ◌∙◌, ap, ◌⊎◌, inl, inr, ◌↔◌, Bool, true, false, not, ◌&&◌, ◌||◌, Option, List, [],
  ◌∷◌, ◌++◌, arith, if-true, if◌then◌else◌, Text, text_eq_iff, contains_text, contains-append,
}
use confii_go.Base.Split.{is_empty}
use confii_go.Value.{
  Value, Items, Fields, null, boolean, integer, float, text, sequence, mapping, nil_mapping, nil,
  cons, end, field,
}
use confii_go.Configmap.{extend}
use confii_go.Secretref.{contains_reference}
use confii_go.Runtime.Sensitive.{
  or_nil_map, reference_keys, item_reference_keys, field_reference_keys, sensitive_paths_from,
  sensitive_paths_for,
}

pub data Entry : Text → Value → Fields → Type 0 where
  first : {k : Text} {v : Value} {rest : Fields} → Entry k v (field k v rest)
  later : {k j : Text} {u v : Value} {rest : Fields} → Entry k v rest → Entry k v (field j u rest)

pub data Member : Value → Items → Type 0 where
  first_item : {x : Value} {rest : Items} → Member x (cons x rest)
  later_item : {x y : Value} {rest : Items} → Member x rest → Member x (cons y rest)

-- The keys lead from a value to a text in it. An element of a list has the keys of the list.
pub data Reaches : Value → List Text → Text → Type 0 where
  is_text : {s : Text} → Reaches (text s) [] s
  in_map :
      {m : Fields} {k : Text} {v : Value} {ks : List Text} {s : Text}
      → Entry k v m
      → Reaches v ks s
      → Reaches (mapping m) (k ∷ ks) s
  in_list :
      {xs : Items} {x : Value} {ks : List Text} {s : Text}
      → Member x xs
      → Reaches x ks s
      → Reaches (sequence xs) ks s

-- The path that the keys make below a path.
unfoldable pub extend_all : Text → List Text → Text
extend_all path [] = path
extend_all path (k ∷ ks) = extend_all (extend path k) ks

-- Some keys lead to a text that holds a reference, and make the path, which is not empty.
abbrev pub IsMarked : Text → Value → Text → Type 0
IsMarked path v p =
    (ks : List Text) × (s : Text) × Reaches v ks s
    × (contains_reference s ≡ true)
    × (is_empty p ≡ false)
    × (extend_all path ks ≡ p)

or_split : (a b : Bool) → (a || b) ≡ true → (a ≡ true) ⊎ (b ≡ true)
or_split true b h = inl refl
or_split false b h = inr h

split_append :
    (p : Text) (ks js : List Text)
    → contains_text (ks ++ js) p ≡ true
    → (contains_text ks p ≡ true) ⊎ (contains_text js p ≡ true)
split_append p ks js h = or_split _ _ (sym (contains-append p ks js) ∙ h)

append_first :
    (p : Text) (ks js : List Text) → contains_text ks p ≡ true → contains_text (ks ++ js) p ≡ true
append_first p ks js h = let e = contains-append p ks js in ground arith

append_later :
    (p : Text) (ks js : List Text) → contains_text js p ≡ true → contains_text (ks ++ js) p ≡ true
append_later p ks js h = let e = contains-append p ks js in ground arith

-- A text, whose test is `b`.
text-IsMarked :
    (path p s : Text) (b : Bool)
    → (not (is_empty path) && contains_reference s) ≡ b
    → contains_text (if b then path ∷ [] else []) p ≡ true
    → IsMarked path (text s) p
unfolding contains_text extend_all
text-IsMarked path p s true h c =
    let same : path ≡ p = (text_eq_iff path p).0 (ground arith) in
    (
      [],
      s,
      is_text,
      (ground arith),
      subst (λ (q : Text). is_empty q ≡ false) same (ground arith),
      same,
    )
text-IsMarked path p s false h c = cc

field_first :
    (path k : Text) (v : Value) (rest : Fields) (p : Text)
    → IsMarked (extend path k) v p
    → IsMarked path (mapping (field k v rest)) p
unfolding extend_all
field_first path k v rest p (ks, s, r, c, full, e) = (k ∷ ks, s, in_map first r, c, full, e)

field_later :
    (path k : Text) (v : Value) (rest : Fields) (p : Text)
    → IsMarked path (mapping rest) p
    → IsMarked path (mapping (field k v rest)) p
field_later path k v rest p (ks, s, in_map i r, c, full, e) =
    (ks, s, in_map (later i) r, c, full, e)

item_first :
    (path : Text) (x : Value) (xs : Items) (p : Text)
    → IsMarked path x p
    → IsMarked path (sequence (cons x xs)) p
item_first path x xs p (ks, s, r, c, full, e) = (ks, s, in_list first_item r, c, full, e)

item_later :
    (path : Text) (x : Value) (xs : Items) (p : Text)
    → IsMarked path (sequence xs) p
    → IsMarked path (sequence (cons x xs)) p
item_later path x xs p (ks, s, in_list i r, c, full, e) =
    (ks, s, in_list (later_item i) r, c, full, e)

mutual
  unfolding reference_keys contains_text

  value-IsMarked :
      (path : Text) (v : Value) (p : Text)
      → contains_text (reference_keys path v) p ≡ true
      → IsMarked path v p
  value-IsMarked path (mapping m) p h = fields-IsMarked path m p h
  value-IsMarked path (sequence xs) p h = items-IsMarked path xs p h
  value-IsMarked path (text s) p h =
      text-IsMarked path p s (not (is_empty path) && contains_reference s) refl h
  value-IsMarked path null p h = cc
  value-IsMarked path (boolean b) p h = cc
  value-IsMarked path (integer i) p h = cc
  value-IsMarked path (float f) p h = cc
  value-IsMarked path nil_mapping p h = cc

  fields-IsMarked :
      (path : Text) (m : Fields) (p : Text)
      → contains_text (field_reference_keys path m) p ≡ true
      → IsMarked path (mapping m) p
  fields-IsMarked path end p h = cc
  fields-IsMarked path (field k v rest) p h =
      elim (split_append p (reference_keys (extend path k) v) (field_reference_keys path rest) h) [
        | inl a ↦ field_first path k v rest p (value-IsMarked (extend path k) v p a)
        | inr b ↦ field_later path k v rest p (fields-IsMarked path rest p b)
      ]

  items-IsMarked :
      (path : Text) (xs : Items) (p : Text)
      → contains_text (item_reference_keys path xs) p ≡ true
      → IsMarked path (sequence xs) p
  items-IsMarked path nil p h = cc
  items-IsMarked path (cons x xs) p h =
      elim (split_append p (reference_keys path x) (item_reference_keys path xs) h) [
        | inl a ↦ item_first path x xs p (value-IsMarked path x p a)
        | inr b ↦ item_later path x xs p (items-IsMarked path xs p b)
      ]

Entry-listed :
    {m : Fields} {k : Text} {v : Value} (path p : Text)
    → Entry k v m
    → contains_text (reference_keys (extend path k) v) p ≡ true
    → contains_text (field_reference_keys path m) p ≡ true
unfolding reference_keys
Entry-listed path p first h = append_first p _ _ h
Entry-listed path p (later i) h = append_later p _ _ (Entry-listed path p i h)

Member-listed :
    {xs : Items} {x : Value} (path p : Text)
    → Member x xs
    → contains_text (reference_keys path x) p ≡ true
    → contains_text (item_reference_keys path xs) p ≡ true
unfolding reference_keys
Member-listed path p first_item h = append_first p _ _ h
Member-listed path p (later_item i) h = append_later p _ _ (Member-listed path p i h)

text_listed :
    (path s : Text)
    → contains_reference s ≡ true
    → is_empty path ≡ false
    → contains_text (reference_keys path (text s)) path ≡ true
unfolding reference_keys contains_text
text_listed path s c full =
    let test : (not (is_empty path) && contains_reference s) ≡ true = ground arith in
    let same = (text_eq_iff path path).1 refl in
    ap (λ (ks : List Text). contains_text ks path) (if-true _ _ _ test) ∙ ground arith

Reaches-listed :
    {v : Value} {ks : List Text} {s : Text} (path : Text)
    → Reaches v ks s
    → contains_reference s ≡ true
    → is_empty (extend_all path ks) ≡ false
    → contains_text (reference_keys path v) (extend_all path ks) ≡ true
unfolding extend_all reference_keys
Reaches-listed {s = s} path is_text c full = text_listed path s c full
Reaches-listed path (in_map {k = k} {ks = ks} i r) c full =
    Entry-listed path (extend_all (extend path k) ks) i (Reaches-listed (extend path k) r c full)
Reaches-listed path (in_list {ks = ks} i r) c full =
    Member-listed path (extend_all path ks) i (Reaches-listed path r c full)

IsMarked-listed :
    (path : Text) (v : Value) (p : Text)
    → IsMarked path v p
    → contains_text (reference_keys path v) p ≡ true
IsMarked-listed path v p (ks, s, r, c, full, e) =
    subst (λ (q : Text). contains_text (reference_keys path v) q ≡ true) e
      (Reaches-listed path r c (ap is_empty e ∙ full))

-- The paths that are declared, or at which the configuration holds a reference.
abbrev pub IsHidden : Option Fields → List Text → Text → Type 0
IsHidden config declared p =
    IsMarked [] (mapping (or_nil_map config)) p ⊎ (contains_text declared p ≡ true)

pub sensitive_paths_for-IsHidden :
    (config : Option Fields) (declared : List Text) (p : Text)
    → (contains_text (sensitive_paths_for config declared) p ≡ true) ↔ IsHidden config declared p
unfolding sensitive_paths_for sensitive_paths_from
sensitive_paths_for-IsHidden config declared p = (there, back)
  where
    listed : List Text
    listed = field_reference_keys [] (or_nil_map config)

    there : contains_text (listed ++ declared) p ≡ true → IsHidden config declared p
    there h = elim (split_append p listed declared h) [
      | inl a ↦ inl (fields-IsMarked [] (or_nil_map config) p a)
      | inr b ↦ inr b
    ]

    back : IsHidden config declared p → contains_text (listed ++ declared) p ≡ true
    back (inl m) =
        append_first p listed declared
          (unfold reference_keys in IsMarked-listed [] (mapping (or_nil_map config)) p m)
    back (inr d) = append_later p listed declared d
