-- ===== src/Access/Numbers.antt =====
-- The floats that GetInt reads as an int.
use confii_go.Base.{
  ℕ, ◌%◌, ◌^◌, Bool, true, false, not, ◌||◌, ◌≡◌, ◌⊎◌, inl, inr, refl, ap, sym, arith, ◌==◌, ==_iff,
  ltb,
}
use confii_go.Base.{if◌then◌else◌}
use confii_go.Base.Int.{ℤ}
use confii_go.Access.{
  Access, gave, denied, non_finite, fractional, int_overflow, is_negative, exponent, scaled,
  magnitude, signed, int_of_float, get_int_float,
}

module _ {E : Type 0} (unspecified : ℕ → ℤ) where
  gave-injective : (i j : ℤ) → ◌≡◌ {A = Access E ℤ} (gave i) (gave j) → i ≡ j
  gave-injective i j h = ap from h
    where
      from : Access E ℤ → ℤ
      from (gave k) = k
      from (denied e) = i

  -- A float that GetInt reads as an int has no fractional part and is not beyond 2^63 in absolute
  -- value, and the int is its exact value, unless it is 2^63 itself.
  pub get_int_float-exact :
      (bits : ℕ) (i : ℤ)
      → ◌≡◌ {A = Access E ℤ} (get_int_float unspecified bits) (gave i)
      → (scaled bits % 2 ^ 1075 ≡ 0)
        × (ltb (2 ^ 63) (magnitude bits) ≡ false)
        × ((i ≡ signed (is_negative bits) (magnitude bits))
            ⊎ ((is_negative bits ≡ false) × (magnitude bits ≡ 2 ^ 63)))
  unfolding get_int_float int_of_float
  get_int_float-exact bits i h =
      branches (exponent bits == 2047) (scaled bits % 2 ^ 1075 == 0) (ltb (2 ^ 63) (magnitude bits))
        (is_negative bits || ltb (magnitude bits) (2 ^ 63)) refl refl refl h
    where
      boundary :
          (negative : Bool) (m : ℕ)
          → (negative || ltb m (2 ^ 63)) ≡ false
          → ltb (2 ^ 63) m ≡ false
          → (negative ≡ false) × (m ≡ 2 ^ 63)
      boundary true m outside within = cc
      boundary false m outside within = (refl, ground arith)

      branches :
          (special whole large fits : Bool)
          → (scaled bits % 2 ^ 1075 == 0) ≡ whole
          → ltb (2 ^ 63) (magnitude bits) ≡ large
          → (is_negative bits || ltb (magnitude bits) (2 ^ 63)) ≡ fits
          → ◌≡◌ {A = Access E ℤ}
              (if special
                then denied non_finite
                else if not whole
                then denied fractional
                else if large
                then denied int_overflow
                else gave
                    (if fits then signed (is_negative bits) (magnitude bits) else unspecified bits))
              (gave i)
          → (scaled bits % 2 ^ 1075 ≡ 0)
            × (large ≡ false)
            × ((i ≡ signed (is_negative bits) (magnitude bits))
                ⊎ ((is_negative bits ≡ false) × (magnitude bits ≡ 2 ^ 63)))
      branches true whole large fits e l f k = cc
      branches false false large fits e l f k = cc
      branches false true true fits e l f k = cc
      branches false true false true e l f k =
          ((==_iff _ 0).0 e, refl, inl (sym (gave-injective _ i k)))
      branches false true false false e l f k =
          ((==_iff _ 0).0 e, refl, inr (boundary (is_negative bits) (magnitude bits) f l))
