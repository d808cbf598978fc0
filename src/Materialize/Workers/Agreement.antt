-- ===== src/Materialize/Workers/Agreement.antt =====
-- config_materialize.go: the workers and the sequential loop resolve the same entries.
use confii_go.Base.{
  ◌≡◌, refl, sym, ◌∙◌, ap, inl, inr, Bool, Option, none, some, List, [], ◌∷◌, Text, text_eq,
  text_eq_iff, contains_text, arith, Bool-cases, if-true, if-false, if◌then◌else◌,
}
use confii_go.Value.{Value, Fields}
use confii_go.Value.Maps.{lookup}
use confii_go.Configmap.{extend}
use confii_go.Hook.{Processor}
use confii_go.Materialize.{Resolved, materialize_value}
use confii_go.Materialize.Workers.Schedules.{in_order, value_of}

pub in_order-lookup :
    (j : Text) (result : Text → Value) (ks : List Text)
    → lookup j (in_order result ks) ≡ (if contains_text ks j then some (result j) else none)
unfolding in_order lookup contains_text
in_order-lookup j result [] = refl
in_order-lookup j result (k ∷ ks) = elim (Bool-cases (text_eq k j)) [
  | inl same ↦
      let e = (text_eq_iff k j).0 same in
      if-true _ _ _ same
      ∙ ap (λ (q : Text). some (result q)) e
      ∙ sym (if-true (contains_text (k ∷ ks) j) (some (result j)) none (ground arith))
  | inr other ↦
      if-false _ _ _ other
      ∙ in_order-lookup j result ks
      ∙ ap (λ (b : Bool). if b then some (result j) else none) (ground arith)
]

module _ (W E : Type 0) (ctx_err : W → Option E × W) (p : Processor W E) where
  -- What the job of an entry gives does not depend on when it runs.
  abbrev pub IsStable : (Text → Resolved E Value) → Text → Fields → Type 0
  IsStable outcome path m =
      (k : Text) (v : Value) (w : W)
      → lookup k m ≡ some v
      → (materialize_value W E ctx_err p (extend path k) v w).0 ≡ outcome k

  module _ (outcome : Text → Resolved E Value) (path : Text) (m m' : Fields) (w w' : W) where
    abbrev result : Text → Value
    result k = value_of (outcome k)
