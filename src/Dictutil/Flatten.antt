-- ===== src/Dictutil/Flatten.antt =====
-- internal/dictutil/flatten.go: a map from dotted paths to the leaves of a nested map.
use confii_go.Base.{
  ◌≡◌, refl, sym, ◌∙◌, ap, Bool, true, false, ◌||◌, Option, none, some, List, [], ◌∷◌, ◌++◌, arith,
}
use confii_go.Base.{Text, text_eq, contains_text, contains-append, if◌then◌else◌}
use confii_go.Base.Sort.{contains-sort_texts}
use confii_go.Value.{
  Value, Fields, null, boolean, integer, float, text, sequence, mapping, nil_mapping, end, field,
}
use confii_go.Value.Maps.{lookup, insert}
use confii_go.Value.Laws.{lookup-insert}
use confii_go.Configmap.{extend, collect, collect_value, under_prefix}
use confii_go.Configmap

unfoldable mutual
  pub flatten_into : Text → Fields → Fields → Fields
  flatten_into prefix end result = result
  flatten_into prefix (field k v rest) result =
      flatten_into prefix rest (flatten_value (extend prefix k) v result)

  pub flatten_value : Text → Value → Fields → Fields
  flatten_value key (mapping m) result = flatten_into key m result
  flatten_value key nil_mapping result = result
  flatten_value key v result = insert key v result

unfoldable pub flatten : Fields → Fields
flatten fields = flatten_into [] fields end

unfoldable pub flat_keys : Option Fields → List Text
flat_keys fields = Configmap.keys fields []

abbrev pub is_held : Option Value → Bool
is_held none = false
is_held (some v) = true

is_held-if :
    (b : Bool) (v : Value) (o : Option Value)
    → is_held (if b then some v else o) ≡ ((b || false) || is_held o)
is_held-if true v o = refl
is_held-if false v o = refl

is_held-insert :
    (k key : Text) (v : Value) (result : Fields)
    → is_held (lookup k (insert key v result))
      ≡ (contains_text (key ∷ []) k || is_held (lookup k result))
unfolding contains_text
is_held-insert k key v result =
    ap is_held (lookup-insert k key v result) ∙ is_held-if (text_eq key k) v (lookup k result)

held_none : (k : Text) (c : Bool) → c ≡ (contains_text [] k || c)
unfolding contains_text
held_none k c = refl

held_later :
    (k : Text) (ks js : List Text) (a b c : Bool)
    → a ≡ (contains_text js k || b)
    → b ≡ (contains_text ks k || c)
    → a ≡ (contains_text (ks ++ js) k || c)
held_later k ks js a b c x y = let e = contains-append k ks js in ground arith

mutual
  unfolding flatten_into collect

  held_fields :
      (k prefix : Text) (m result : Fields)
      → is_held (lookup k (flatten_into prefix m result))
        ≡ (contains_text (collect prefix m) k || is_held (lookup k result))
  held_fields k prefix end result = held_none k (is_held (lookup k result))
  held_fields k prefix (field j v rest) result =
      held_later k (collect_value (extend prefix j) v) (collect prefix rest) _ _ _
        (held_fields k prefix rest (flatten_value (extend prefix j) v result))
        (held_value k (extend prefix j) v result)

  held_value :
      (k key : Text) (v : Value) (result : Fields)
      → is_held (lookup k (flatten_value key v result))
        ≡ (contains_text (collect_value key v) k || is_held (lookup k result))
  held_value k key (mapping m) result = held_fields k key m result
  held_value k key nil_mapping result = held_none k (is_held (lookup k result))
  held_value k key null result = is_held-insert k key null result
  held_value k key (boolean b) result = is_held-insert k key (boolean b) result
  held_value k key (integer i) result = is_held-insert k key (integer i) result
  held_value k key (float f) result = is_held-insert k key (float f) result
  held_value k key (text s) result = is_held-insert k key (text s) result
  held_value k key (sequence xs) result = is_held-insert k key (sequence xs) result

or_missing : (b : Bool) (k : Text) → (b || is_held (lookup k end)) ≡ b
unfolding lookup
or_missing true k = refl
or_missing false k = refl

contains-flat_keys :
    (m : Fields) (k : Text) → contains_text (flat_keys (some m)) k ≡ contains_text (collect [] m) k
unfolding flat_keys Configmap.keys under_prefix
contains-flat_keys m k = contains-sort_texts k (collect [] m)

-- The keys of the flat map are exactly those that `FlatKeys` lists.
pub flatten-flat_keys :
    (m : Fields) (k : Text) → is_held (lookup k (flatten m)) ≡ contains_text (flat_keys (some m)) k
unfolding flatten
flatten-flat_keys m k =
    held_fields k [] m end
    ∙ or_missing (contains_text (collect [] m) k) k
    ∙ sym (contains-flat_keys m k)
