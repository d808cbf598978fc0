-- ===== src/Typecoerce.antt =====
-- internal/typecoerce/parse.go: the value that a text stands for, with strconv.ParseInt and FormatInt at
-- base 10. `strings.ToLower`, `strings.TrimSpace` and strconv.ParseFloat are parameters, and so is the
-- width of an int. Bytes outside ASCII are no digits.
pub mod Decimal
pub mod Integers
use confii_go.Base.{
  ℕ, zero, suc, ◌+◌, ◌-◌, ◌*◌, ◌/◌, ◌%◌, ◌^◌, Bool, true, false, ◌&&◌, ◌||◌, Option, none, some,
  List, [], ◌∷◌, ◌==◌, ltb, leb,
}
use confii_go.Base.{Text, codes, text_eq, if◌then◌else◌}
use confii_go.Base.Int.{ℤ, pos, negsuc}
use confii_go.Value.{Value, boolean, integer, float, text}

-- The digits of a number in front of a text; none for zero. The fuel n is enough, since a number that is
-- not zero has a smaller tenth.
unfoldable pub digits : ℕ → ℕ → Text → Text
digits zero n out = out
digits (suc fuel) n out =
    let more = digits fuel (n / 10) ((b'0' + n % 10) ∷ out) in if n == 0 then out else more

unfoldable pub format_nat : ℕ → Text
format_nat n = if n == 0 then b'0' ∷ [] else digits n n []

-- `strconv.FormatInt(i, 10)`
unfoldable pub format_int : ℤ → Text
format_int (pos n) = format_nat n
format_int (negsuc n) = b'-' ∷ format_nat (suc n)

-- The number of a text of digits, behind the digits of `n`.
unfoldable pub scan_digits : Text → ℕ → Option ℕ
scan_digits [] n = some n
scan_digits (c ∷ s) n =
    let rest = scan_digits s (n * 10 + (c - b'0')) in
    if ltb c b'0' || ltb b'9' c then none else rest

unfoldable pub parse_digits : Text → Option ℕ
parse_digits [] = none
parse_digits (c ∷ s) = scan_digits (c ∷ s) 0

abbrev pub negate : ℕ → ℤ
negate zero = pos 0
negate (suc n) = negsuc n

-- The sign and the range, for an int whose greatest value is `limit - 1`.
unfoldable pub with_sign : ℕ → Bool → Option ℕ → Option ℤ
with_sign limit negative none = none
with_sign limit true (some n) = if leb n limit then some (negate n) else none
with_sign limit false (some n) = if ltb n limit then some (pos n) else none

-- `strconv.ParseInt(s, 10, int_size)`: none is an error.
unfoldable pub parse_int : ℕ → Text → Option ℤ
parse_int limit [] = none
parse_int limit (c ∷ s) =
    if c == b'+'
    then with_sign limit false (parse_digits s)
    else if c == b'-'
    then with_sign limit true (parse_digits s)
    else with_sign limit false (parse_digits (c ∷ s))

-- `strings.ContainsAny(value, ".eE")`
unfoldable pub looks_float : Text → Bool
looks_float [] = false
looks_float (c ∷ s) = (c == b'.' || (c == b'e' || c == b'E')) || looks_float s

-- The cases of the Boolean texts.
unfoldable pub boolean_named : Bool → Text → Option Bool
boolean_named extended s =
    if text_eq s (codes "true")
    then some true
    else if text_eq s (codes "false")
    then some false
    else if extended && (text_eq s (codes "yes") || text_eq s (codes "on"))
    then some true
    else if extended && (text_eq s (codes "no") || text_eq s (codes "off"))
    then some false
    else none

module _ (int_size : ℕ) (to_lower trim_space : Text → Text) (parse_float : Text → Option ℕ) where
  unfoldable pub float_or_text : Text → Value
  float_or_text value = elim (parse_float value) [
    | none ↦ text value
    | some f ↦ if looks_float value then float f else text value
  ]

  -- The integer counts only if it is written as `FormatInt` writes it.
  unfoldable pub integer_or_float : Text → Option ℤ → Value
  integer_or_float value none = float_or_text value
  integer_or_float value (some i) =
      if text_eq (format_int i) value then integer i else float_or_text value

  unfoldable pub parse_scalar : Text → Bool → Value
  parse_scalar value extended_booleans =
      elim (boolean_named extended_booleans (to_lower (trim_space value))) [
        | some b ↦ boolean b
        | none ↦ integer_or_float value (parse_int (2 ^ (int_size - 1)) value)
      ]
