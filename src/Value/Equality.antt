-- ===== src/Value/Equality.antt =====
-- `reflect.DeepEqual`, and `==` on two values of type `any`: Go panics where both hold a slice or both a map.
use confii_go.Base.{ℕ, ◌%◌, ◌^◌, ◌*◌, Bool, true, false, ◌&&◌, ◌||◌, not, Option, none, some}
use confii_go.Base.{text_eq, ltb, ◌==◌}
use confii_go.Base.Int.{int_eq}
use confii_go.Value.Maps.{lookup, count_fields}
use confii_go.Value.{
  Value, Items, Fields, nil, cons, end, field, null, boolean, integer, float, text, sequence,
  mapping, nil_mapping,
}

-- IEEE 754 on the bits of a float64: a NaN equals nothing, and the two zeros are equal.
abbrev is_nan : ℕ → Bool
is_nan b = ltb (2047 * 2 ^ 52) (b % 2 ^ 63)

unfoldable pub float_eq : ℕ → ℕ → Bool
float_eq a b = not (is_nan a) && not (is_nan b) && (a == b || (a % 2 ^ 63 == 0 && b % 2 ^ 63 == 0))

abbrev bool_eq : Bool → Bool → Bool
bool_eq true b = b
bool_eq false b = not b

-- `none` is the run-time panic on a comparison of uncomparable types.
unfoldable pub interface_eq : Value → Value → Option Bool
unfolding float_eq
interface_eq null null = some true
interface_eq (boolean a) (boolean b) = some (bool_eq a b)
interface_eq (integer a) (integer b) = some (int_eq a b)
interface_eq (float a) (float b) = some (float_eq a b)
interface_eq (text s) (text t) = some (text_eq s t)
interface_eq (sequence xs) (sequence ys) = none
interface_eq (mapping m) (mapping n) = none
interface_eq (mapping m) nil_mapping = none
interface_eq nil_mapping (mapping n) = none
interface_eq nil_mapping nil_mapping = none
interface_eq _ _ = some false

-- `reflect.DeepEqual`. A nil map and an empty one differ. (Two slices or maps that are the same object
-- count as equal in Go even where they hold a NaN, which a model without objects does not see.)
unfoldable mutual
  unfolding float_eq

  pub deep_equal : Value → Value → Bool
  deep_equal null null = true
  deep_equal (boolean a) (boolean b) = bool_eq a b
  deep_equal (integer a) (integer b) = int_eq a b
  deep_equal (float a) (float b) = float_eq a b
  deep_equal (text s) (text t) = text_eq s t
  deep_equal (sequence xs) (sequence ys) = items_equal xs ys
  deep_equal (mapping m) (mapping n) = count_fields m == count_fields n && fields_within m n
  deep_equal nil_mapping nil_mapping = true
  deep_equal _ _ = false

  pub items_equal : Items → Items → Bool
  items_equal nil nil = true
  items_equal (cons x xs) (cons y ys) = deep_equal x y && items_equal xs ys
  items_equal _ _ = false

  -- Every entry of the first map has an equal value in the second.
  pub fields_within : Fields → Fields → Bool
  fields_within end n = true
  fields_within (field k v rest) n =
      let later = fields_within rest n in
      elim (lookup k n) [ none ↦ false | some w ↦ deep_equal v w && later ]
