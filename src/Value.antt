-- ===== src/Value.antt =====
-- Configuration values, Go's `any` as the decoders produce it, and maps from strings to them.
-- A map is the sequence of its entries in the order of one iteration: the theorems hold for every
-- sequence, so for every order in which Go may iterate.
pub mod Maps
pub mod Laws
pub mod Equality
use confii_go.Base.{ℕ, Bool, Text}
use confii_go.Base.Int.{ℤ}

mutual
  pub data Value : Type 0 where
    null : Value
    boolean : Bool → Value
    integer : ℤ → Value
    -- the bits of a float64
    float : ℕ → Value
    text : Text → Value
    -- []any
    sequence : Items → Value
    -- map[string]any, made or nil
    mapping : Fields → Value
    nil_mapping : Value

  pub data Items : Type 0 where
    nil : Items
    cons : Value → Items → Items

  pub data Fields : Type 0 where
    end : Fields
    field : Text → Value → Fields → Fields
