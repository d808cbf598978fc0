-- ===== src/Typecoerce/Integers.antt =====
-- The texts that stand for an integer.
use confii_go.Base.{
  ℕ, zero, suc, ◌+◌, ◌-◌, ◌^◌, ◌<◌, Bool, true, false, Option, none, some, [], ◌∷◌, ◌≡◌, ◌↔◌, ◌≢◌,
  refl, ap, sym, ◌∙◌, arith, ◌==◌, ltb, leb, if-true, if-false,
}
use mathlib.Core.Option.{some-injective}
use confii_go.Base.{Text, text_eq, text_eq_iff, text_eq_refl, if◌then◌else◌}
use confii_go.Base.Int.{ℤ, pos, negsuc}
use confii_go.Value.{boolean, integer, float, text}
use confii_go.Typecoerce.{
  format_nat, format_int, parse_digits, with_sign, parse_int, boolean_named, float_or_text,
  integer_or_float, parse_scalar, looks_float,
}
use confii_go.Typecoerce.Decimal.{HasDigit, format_nat-HasDigit, parse_digits-format_nat}

-- The range of an int whose greatest value is `limit - 1`.
abbrev pub in_range : ℕ → ℤ → Bool
in_range limit (pos n) = ltb n limit
in_range limit (negsuc n) = ltb n limit

parse_int-digit :
    (limit : ℕ) (s : Text) → HasDigit s → parse_int limit s ≡ with_sign limit false (parse_digits s)
unfolding parse_int
parse_int-digit limit s (d, rest, h, e) =
    ap (parse_int limit) e
    ∙ (if-false (b'0' + d == b'+') _ _ (ground arith)
        ∙ if-false (b'0' + d == b'-') _ _ (ground arith))
    ∙ ap (λ t. with_sign limit false (parse_digits t)) (sym e)

-- An int in range is read back from its text.
pub parse_int-format_int :
    (limit : ℕ) (i : ℤ) → in_range limit i ≡ true → parse_int limit (format_int i) ≡ some i
unfolding format_int parse_int with_sign
parse_int-format_int limit (pos n) h =
    parse_int-digit limit (format_nat n) (format_nat-HasDigit n)
    ∙ ap (with_sign limit false) (parse_digits-format_nat n)
    ∙ if-true _ _ _ h
parse_int-format_int limit (negsuc n) h =
    ap (with_sign limit true) (parse_digits-format_nat (suc n))
    ∙ if-true (leb (suc n) limit) _ _ (ground arith)

if_some-in_range :
    (limit : ℕ) (b : Bool) (j i : ℤ)
    → (b ≡ true → in_range limit j ≡ true)
    → (if b then some j else none) ≡ some i
    → in_range limit i ≡ true
if_some-in_range limit true j i h e = ap (in_range limit) (sym (some-injective j i e)) ∙ h refl
if_some-in_range limit false j i h e = cc

with_sign-in_range :
    (limit : ℕ) (negative : Bool) (o : Option ℕ) (i : ℤ)
    → 0 < limit
    → with_sign limit negative o ≡ some i
    → in_range limit i ≡ true
unfolding with_sign
with_sign-in_range limit negative none i h e = cc
with_sign-in_range limit true (some zero) i h e =
    if_some-in_range limit (leb 0 limit) (pos 0) i (λ k. ground arith) e
with_sign-in_range limit true (some (suc n)) i h e =
    if_some-in_range limit (leb (suc n) limit) (negsuc n) i (λ k. ground arith) e
with_sign-in_range limit false (some n) i h e =
    if_some-in_range limit (ltb n limit) (pos n) i (λ k. k) e

parse_int-in_range :
    (limit : ℕ) (s : Text) (i : ℤ)
    → 0 < limit
    → parse_int limit s ≡ some i
    → in_range limit i ≡ true
unfolding parse_int
parse_int-in_range limit [] i h e = cc
parse_int-in_range limit (c ∷ s) i h e = branches (c == b'+') (c == b'-') e
  where
    branches :
        (plus minus : Bool)
        → (if plus
            then with_sign limit false (parse_digits s)
            else if minus
            then with_sign limit true (parse_digits s)
            else with_sign limit false (parse_digits (c ∷ s)))
          ≡ some i
        → in_range limit i ≡ true
    branches true minus k = with_sign-in_range limit false (parse_digits s) i h k
    branches false true k = with_sign-in_range limit true (parse_digits s) i h k
    branches false false k = with_sign-in_range limit false (parse_digits (c ∷ s)) i h k

boolean_named-below :
    (extended : Bool) (c : ℕ) (s : Text) → c < 58 → boolean_named extended (c ∷ s) ≡ none
unfolding boolean_named text_eq
boolean_named-below extended c s h = ground arith

boolean_named-format_int : (extended : Bool) (i : ℤ) → boolean_named extended (format_int i) ≡ none
unfolding format_int
boolean_named-format_int extended (pos n) =
    let (d, rest, h, e) = format_nat-HasDigit n in
    ap (boolean_named extended) e ∙ boolean_named-below extended (b'0' + d) rest (omega arith)
boolean_named-format_int extended (negsuc n) =
    boolean_named-below extended b'-' (format_nat (suc n)) (omega arith)

two_pow_pos : (n : ℕ) → 0 < 2 ^ n
two_pow_pos zero = omega arith
two_pow_pos (suc n) = omega (arith, two_pow_pos n)

module _ (int_size : ℕ) (to_lower trim_space : Text → Text) (parse_float : Text → Option ℕ) where
  float_or_text_plain :
      (value : Text) (i : ℤ)
      → float_or_text int_size to_lower trim_space parse_float value ≢ integer i
  unfolding float_or_text
  float_or_text_plain value i = branches (parse_float value) (looks_float value)
    where
      branches :
          (o : Option ℕ) (b : Bool)
          → elim o [ none ↦ text value | some f ↦ if b then float f else text value ] ≢ integer i
      branches none b h = cc
      branches (some f) true h = cc
      branches (some f) false h = cc

  integer_or_float-integer :
      (value : Text) (o : Option ℤ) (i : ℤ)
      → integer_or_float int_size to_lower trim_space parse_float value o ≡ integer i
      → (o ≡ some i) × (value ≡ format_int i)
  unfolding integer_or_float
  integer_or_float-integer value none i h = absurd (float_or_text_plain value i h)
  integer_or_float-integer value (some j) i h =
      branches (text_eq (format_int j) value) (λ e. (text_eq_iff (format_int j) value).0 e) h
    where
      branches :
          (b : Bool)
          → (b ≡ true → format_int j ≡ value)
          → (if b then integer j else float_or_text int_size to_lower trim_space parse_float value)
            ≡ integer i
          → (some j ≡ some i) × (value ≡ format_int i)
      branches true same k = let e : j ≡ i = cc in (ap some e, sym (same refl) ∙ ap format_int e)
      branches false same k = absurd (float_or_text_plain value i k)

  -- Where the text of an integer is left as it is by TrimSpace and ToLower, a value is read as that
  -- integer exactly if it is this text and the integer is one of the width of an int.
  pub parse_scalar-integer :
      (value : Text) (extended : Bool) (i : ℤ)
      → to_lower (trim_space (format_int i)) ≡ format_int i
      → (parse_scalar int_size to_lower trim_space parse_float value extended ≡ integer i)
        ↔ ((value ≡ format_int i) × (in_range (2 ^ (int_size - 1)) i ≡ true))
  unfolding parse_scalar integer_or_float
  parse_scalar-integer value extended i plain = (
    read (boolean_named extended (to_lower (trim_space value))),
    λ written.
        ap (λ s. parse_scalar int_size to_lower trim_space parse_float s extended) written.0
        ∙ ap
            (λ (o : Option Bool). elim o [
              | some b ↦ boolean b
              | none ↦
                  integer_or_float int_size to_lower trim_space parse_float (format_int i)
                    (parse_int (2 ^ (int_size - 1)) (format_int i))
            ])
            (ap (boolean_named extended) plain ∙ boolean_named-format_int extended i)
        ∙ ap (integer_or_float int_size to_lower trim_space parse_float (format_int i))
            (parse_int-format_int (2 ^ (int_size - 1)) i written.1)
        ∙ if-true _ _ _ (text_eq_refl (format_int i)),
  )
    where
      read :
          (o : Option Bool)
          → elim o [
            | some b ↦ boolean b
            | none ↦
                integer_or_float int_size to_lower trim_space parse_float value
                  (parse_int (2 ^ (int_size - 1)) value)
          ]
            ≡ integer i
          → (value ≡ format_int i) × (in_range (2 ^ (int_size - 1)) i ≡ true)
      read (some b) h = cc
      read none h =
          let (parsed, written) = integer_or_float-integer value _ i h in
          (
            written,
            parse_int-in_range (2 ^ (int_size - 1)) value i (two_pow_pos (int_size - 1)) parsed,
          )
