-- ===== src/Typecoerce/Decimal.antt =====
-- The decimal text of a number and its reading.
use confii_go.Base.{
  ℕ, zero, suc, ◌+◌, ◌*◌, ◌/◌, ◌%◌, ◌≤◌, ◌<◌, ◌||◌, some, [], ◌∷◌, ◌≡◌, refl, ap, sym, ◌∙◌, arith,
  ◌==◌, ==_iff, ltb, Bool-cases, inl, inr, if-false, ◌⊎◌,
}
use confii_go.Base.{Text}
use confii_go.Typecoerce.{digits, format_nat, scan_digits, parse_digits}

-- A decimal digit, read behind the digits of a number.
scan-digit :
    (d n : ℕ) (out : Text)
    → d < 10
    → scan_digits ((b'0' + d) ∷ out) n ≡ scan_digits out (n * 10 + d)
unfolding scan_digits
scan-digit d n out h =
    if-false (ltb (b'0' + d) b'0' || ltb b'9' (b'0' + d)) _ _ (ground arith)
    ∙ ap (scan_digits out) (omega arith)

scan-digits :
    (fuel n : ℕ) (out : Text) → n ≤ fuel → scan_digits (digits fuel n out) 0 ≡ scan_digits out n
unfolding digits
scan-digits zero n out h = ap (scan_digits out) (omega arith)
scan-digits (suc fuel) n out h = elim (Bool-cases (n == 0)) [
  | inl e ↦ rw e (ap (scan_digits out) (sym ((==_iff n 0).0 e)))
  | inr e ↦ rw e (
      scan-digits fuel (n / 10) ((b'0' + n % 10) ∷ out) (ground arith)
      ∙ scan-digit (n % 10) (n / 10) out (omega arith)
      ∙ ap (scan_digits out) (omega arith))
]

-- A text that begins with a digit.
abbrev pub HasDigit : Text → Type 0
HasDigit s = (d : ℕ) × (rest : Text) × (d < 10) × (s ≡ (b'0' + d) ∷ rest)

digits-HasDigit :
    (fuel n : ℕ) (out : Text) → HasDigit out ⊎ (0 < n) → n ≤ fuel → HasDigit (digits fuel n out)
unfolding digits
digits-HasDigit zero n out (inl given) h = given
digits-HasDigit zero n out (inr some_left) h = absurd (omega arith)
digits-HasDigit (suc fuel) n out given h = elim (Bool-cases (n == 0)) [
  | inl e ↦ rw e (elim given [ inl g ↦ g | inr p ↦ absurd (ground arith) ])
  | inr e ↦ rw e (
      digits-HasDigit fuel (n / 10) ((b'0' + n % 10) ∷ out) (inl (n % 10, out, omega arith, refl))
        (ground arith))
]

pub format_nat-HasDigit : (n : ℕ) → HasDigit (format_nat n)
unfolding format_nat
format_nat-HasDigit n = elim (Bool-cases (n == 0)) [
  | inl e ↦ rw e (0, [], omega arith, refl)
  | inr e ↦ rw e (digits-HasDigit n n [] (inr (ground arith)) (omega arith))
]

parse_digits-HasDigit : (s : Text) → HasDigit s → parse_digits s ≡ scan_digits s 0
unfolding parse_digits
parse_digits-HasDigit s (d, rest, h, e) = ap parse_digits e ∙ ap (λ t. scan_digits t 0) (sym e)

scan-format_nat : (n : ℕ) → scan_digits (format_nat n) 0 ≡ some n
unfolding format_nat scan_digits
scan-format_nat n = elim (Bool-cases (n == 0)) [
  | inl e ↦ rw e (ap some (sym ((==_iff n 0).0 e)))
  | inr e ↦ rw e (scan-digits n n [] (omega arith))
]

-- The decimal text of a number is read back.
pub parse_digits-format_nat : (n : ℕ) → parse_digits (format_nat n) ≡ some n
parse_digits-format_nat n =
    parse_digits-HasDigit (format_nat n) (format_nat-HasDigit n) ∙ scan-format_nat n
