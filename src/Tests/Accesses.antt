-- ===== src/Tests/Accesses.antt =====
-- Reads of a small configuration.
use confii_go.Base.{
  ◌≡◌, ◌↔◌, ◌⊎◌, refl, ℕ, Bool, false, true, false, ◌*◌, ◌^◌, ◌%◌, ltb, some, Text, codes,
}
use confii_go.Base.Int.{ℤ, pos}
use confii_go.Value.{Value}
use confii_go.Access.{
  Hooked, hooked, Lookup, has_path, get_with_context, get_int_float, is_negative, magnitude, scaled,
  signed, int_of_float,
}
use confii_go.Access.Lookups.{IsNotFound, HookSaysNotFound, has_path-get_with_context}
use confii_go.Access.Numbers.{get_int_float-exact}
use confii_go.Tests.Data.{base}

-- Every variable is set.
abbrev process_env : Lookup
process_env = record {
  sysenv_fallback = true;
  env_prefix = codes "APP";
  to_upper = λ s. s;
  lookup_env = λ name. some (codes "1");
}

abbrev unchanged : Text → Value → Hooked Text
unchanged path v = hooked v

abbrev reads_missing : Text → Bool
reads_missing e = false

has_path-get_with_context_example :
    IsNotFound reads_missing process_env unchanged
      (get_with_context process_env unchanged false (some base) (codes "x"))
    ↔ ((false ≡ false)
        × ((has_path process_env (some base) (codes "x") ≡ false)
            ⊎ HookSaysNotFound reads_missing process_env unchanged (some base) (codes "x")))
has_path-get_with_context_example =
    has_path-get_with_context reads_missing process_env unchanged false (some base) (codes "x")

-- The conversion of amd64 gives the least int; zero stands for it here.
abbrev unspecified : ℕ → ℤ
unspecified bits = pos 0

abbrev one : ℕ
one = 1023 * 2 ^ 52

get_int_float-exact_example :
    (scaled one % 2 ^ 1075 ≡ 0)
    × (ltb (2 ^ 63) (magnitude one) ≡ false)
    × ((pos 1 ≡ signed (is_negative one) (magnitude one))
        ⊎ ((is_negative one ≡ false) × (magnitude one ≡ 2 ^ 63)))
unfolding get_int_float int_of_float magnitude scaled
get_int_float-exact_example = get_int_float-exact {E = Text} unspecified one (pos 1) refl
