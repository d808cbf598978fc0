-- ===== src/Tests/Hooks.antt =====
-- Hooks that count their calls.
use confii_go.Base.{ℕ, ◌+◌, Option, none, [], ◌∷◌, Text}
use confii_go.Value.{null}
use confii_go.Hook.{Func, Processor}

-- The world is the number of calls so far, and an error is a text.
abbrev count : Func ℕ Text
count key v w = record { value = v; err = none; world = w + 1 }

abbrev erase : Func ℕ Text
erase key v w = record { value = null; err = none; world = w + 1 }

abbrev live : ℕ → Option Text × ℕ
live w = (none, w)

abbrev with_global : Processor ℕ Text
with_global = record {
  revision = 1;
  key_hooks = [];
  value_hooks = [];
  condition_hooks = [];
  global_hooks = erase ∷ [];
}
