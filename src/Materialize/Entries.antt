-- ===== src/Materialize/Entries.antt =====
-- config_materialize.go: the entries of a resolved configuration.
use mathlib.Core.Path.{subst}
use mathlib.Core.Option.{some-injective}
use confii_go.Base.{
  text_eq_iff, ◌≡◌, refl, sym, ◌∙◌, ap, inl, inr, Option, none, some, Text, text_eq, Bool-cases,
  if-true, if-false,
}
use confii_go.Value.{Value, Fields, end, field}
use confii_go.Value.Maps.{lookup}
use confii_go.Configmap.{extend}
use confii_go.Hook.{Processor}
use confii_go.Materialize.{
  Resolved, resolved, halted, on_resolved, polled, materialize_value, materialize_fields,
}

resolved_or {ℓ} : {E : Type 0} {A : Type ℓ} → A → Resolved E A → A
resolved_or a (resolved b) = b
resolved_or a (halted e) = a

pub resolved-injective {ℓ} :
    {W E : Type 0} {A : Type ℓ} (a b : A) (w w' : W)
    → ◌≡◌ {A = Resolved E A × W} (resolved a, w) (resolved b, w')
    → a ≡ b
unfolding resolved_or
resolved-injective {W = W} {E = E} {A = A} a b w w' h =
    ap (λ (x : Resolved E A × W). resolved_or a x.0) h

pub on_resolved-resolved {ℓ κ} :
    {W E : Type 0} {A : Type ℓ} {B : Type κ} (x : Resolved E A × W)
    (next : A → W → Resolved E B × W) (b : B) (w' : W)
    → on_resolved x next ≡ (resolved b, w')
    → (a : A) × (w : W) × (x ≡ (resolved a, w)) × (next a w ≡ (resolved b, w'))
on_resolved-resolved (resolved a, w) next b w' h = (a, w, refl, h)
on_resolved-resolved (halted e, w) next b w' h = cc (ap (λ (x : Resolved _ _ × _). x.0) h)

module _ (W E : Type 0) (ctx_err : W → Option E × W) where
  polled-resolved {ℓ} :
      {A : Type ℓ} (next : W → Resolved E A × W) (w : W) (b : A) (w' : W)
      → polled W E ctx_err next w ≡ (resolved b, w')
      → (w1 : W) × (next w1 ≡ (resolved b, w'))
  unfolding polled
  polled-resolved {A = A} next w b w' h = go ((ctx_err w).0) h
    where
      go :
          (o : Option E)
          → ◌≡◌ {A = Resolved E A × W}
              (elim o [ some err ↦ (halted err, (ctx_err w).1) | none ↦ next (ctx_err w).1 ])
              (resolved b, w')
          → (w1 : W) × (next w1 ≡ (resolved b, w'))
      go none x = ((ctx_err w).1, x)
      go (some e) x = cc (ap (λ (y : Resolved E A × W). y.0) x)

module _ (W E : Type 0) (ctx_err : W → Option E × W) (p : Processor W E) where
  -- What the hooks have made of a value, at some time.
  abbrev pub IsMaterialized : Text → Value → Value → Type 0
  IsMaterialized path v v' =
      (w : W) × (w1 : W) × (materialize_value W E ctx_err p path v w ≡ (resolved v', w1))

  -- The first entry of a resolved map, and the rest.
  materialize_fields-resolved :
      (path k : Text) (v : Value) (rest m' : Fields) (w w' : W)
      → materialize_fields W E ctx_err p path (field k v rest) w ≡ (resolved m', w')
      → (v' : Value) × (rest' : Fields) × (w1 : W) × (w2 : W) × (m' ≡ field k v' rest')
        × IsMaterialized (extend path k) v v'
        × (materialize_fields W E ctx_err p path rest w1 ≡ (resolved rest', w2))
  unfolding materialize_fields polled
  materialize_fields-resolved path k v rest m' w w' h =
      let (w1, a) = polled-resolved W E ctx_err first w m' w' h in
      let (v', w2, b, c) =
        on_resolved-resolved (materialize_value W E ctx_err p (extend path k) v w1) second m' w'
          a in
      let (rest', w3, d, e) =
        on_resolved-resolved (materialize_fields W E ctx_err p path rest w2) (third v') m' w' c in
      (v', rest', w2, w3, sym (resolved-injective (field k v' rest') m' w3 w' e), (w1, w2, b), d)
    where
      third : Value → Fields → W → Resolved E Fields × W
      third v' rest' w3 = (resolved (field k v' rest'), w3)

      second : Value → W → Resolved E Fields × W
      second v' w2 = on_resolved (materialize_fields W E ctx_err p path rest w2) (third v')

      first : W → Resolved E Fields × W
      first w1 = on_resolved (materialize_value W E ctx_err p (extend path k) v w1) second

  -- The value of a key in a resolved map.
  pub materialize_fields-lookup :
      (path j : Text) (m m' : Fields) (x : Value) (w w' : W)
      → materialize_fields W E ctx_err p path m w ≡ (resolved m', w')
      → lookup j m ≡ some x
      → (x' : Value) × (lookup j m' ≡ some x') × IsMaterialized (extend path j) x x'
  unfolding lookup
  materialize_fields-lookup path j end m' x w w' h l = cc
  materialize_fields-lookup path j (field k v rest) m' x w w' h l =
      let (v', rest', w1, w2, e, made_it, d) =
        materialize_fields-resolved path k v rest m' w w' h in
      elim (Bool-cases (text_eq k j)) [
        | inl same ↦ (
          v',
          ap (lookup j) e ∙ if-true _ _ _ same,
          subst (λ (y : Value). IsMaterialized (extend path j) y v')
              (some-injective v x (sym (if-true _ _ _ same) ∙ l))
              (subst (λ (q : Text). IsMaterialized (extend path q) v v') ((text_eq_iff k j).0 same)
                made_it),
        )
        | inr other ↦
            let (x', found, made_later) =
              materialize_fields-lookup path j rest rest' x w1 w2 d
                (sym (if-false _ _ _ other) ∙ l) in
            (x', ap (lookup j) e ∙ if-false _ _ _ other ∙ found, made_later)
      ]

  -- A key that a map lacks is not in the resolved map.
  pub materialize_fields_missing :
      (path j : Text) (m m' : Fields) (w w' : W)
      → materialize_fields W E ctx_err p path m w ≡ (resolved m', w')
      → lookup j m ≡ none
      → lookup j m' ≡ none
  unfolding lookup materialize_fields
  materialize_fields_missing path j end m' w w' h l =
      ap (lookup j) (sym (resolved-injective end m' w w' h))
  materialize_fields_missing path j (field k v rest) m' w w' h l =
      let (v', rest', w1, w2, e, _, d) = materialize_fields-resolved path k v rest m' w w' h in
      elim (Bool-cases (text_eq k j)) [
        | inl same ↦ cc (sym (if-true _ _ _ same) ∙ l)
        | inr other ↦
            ap (lookup j) e
            ∙ if-false _ _ _ other
            ∙ materialize_fields_missing path j rest rest' w1 w2 d (sym (if-false _ _ _ other) ∙ l)
      ]
