-- ===== src/Runtime/Scopes/Payloads.antt =====
-- config_override.go: a call of Override has a materialized value for each of its keys.
use mathlib.Core.Path.{subst}
use confii_go.Base.{
  ◌≡◌, sym, ◌∙◌, ap, inl, inr, ℕ, false, Option, none, some, List, [], ◌∷◌, Text, text_eq, All,
  Bool-cases, if-true, if-false,
}
use confii_go.Base.Sort.{sort_texts}
use confii_go.Value.{Value, Fields, end}
use confii_go.Value.Maps.{lookup, insert, keys}
use confii_go.Value.Laws.{lookup-insert, lookup-insert_self}
use confii_go.Diff.{value_or_nil}
use confii_go.Runtime.State.{Live, made, refused, unmaterialized, check_open}
use confii_go.Runtime.Overrides.{OverrideRequest, materialize_overrides, admit_override}
use confii_go.Runtime.Atomic.{bind-made, made-injective}

abbrev pub Holds : Fields → Text → Type 0
Holds m k = (e : Value) × (lookup k m ≡ some e)

-- Each key that the call writes is in its materialized values.
abbrev pub IsMaterialized : OverrideRequest → Type 0
IsMaterialized r = All (Holds r.effective_overrides) (sort_texts (keys r.raw_overrides))

Holds-insert : (j k : Text) (v : Value) (m : Fields) → Holds m j → Holds (insert k v m) j
Holds-insert j k v m (e, h) = elim (Bool-cases (text_eq k j)) [
  | inl x ↦ (v, lookup-insert j k v m ∙ if-true _ _ _ x)
  | inr x ↦ (e, lookup-insert j k v m ∙ if-false _ _ _ x ∙ h)
]

module _ (materialize : Text → Value → Option Value) (raw : Fields) where
  -- The step of the loop whose value is there.
  materialize_step :
      (k : Text) (ks : List Text) (result out : Fields)
      → materialize_overrides materialize raw (k ∷ ks) result ≡ made out
      → (v : Value) × (materialize_overrides materialize raw ks (insert k v result) ≡ made out)
  unfolding materialize_overrides
  materialize_step k ks result out h = go (materialize k (value_or_nil (lookup k raw))) h
    where
      go :
          (o : Option Value)
          → (elim o [
            | none ↦ refused (unmaterialized k)
            | some v ↦ materialize_overrides materialize raw ks (insert k v result)
          ])
            ≡ made out
          → (v : Value) × (materialize_overrides materialize raw ks (insert k v result) ≡ made out)
      go none e = cc
      go (some v) e = (v, e)

  materialize-Holds :
      (j : Text) (ks : List Text) (result out : Fields)
      → materialize_overrides materialize raw ks result ≡ made out
      → Holds result j
      → Holds out j
  unfolding materialize_overrides
  materialize-Holds j [] result out h (e, f) =
      (e, ap (lookup j) (sym (made-injective result out h)) ∙ f)
  materialize-Holds j (k ∷ ks) result out h f =
      let (v, g) = materialize_step k ks result out h in
      materialize-Holds j ks (insert k v result) out g (Holds-insert j k v result f)

  pub materialize_overrides-Holds :
      (ks : List Text) (result out : Fields)
      → materialize_overrides materialize raw ks result ≡ made out
      → All (Holds out) ks
  materialize_overrides-Holds [] result out h = tt
  materialize_overrides-Holds (k ∷ ks) result out h =
      let (v, g) = materialize_step k ks result out h in
      (
        materialize-Holds k ks (insert k v result) out g (v, lookup-insert_self k v result),
        materialize_overrides-Holds ks (insert k v result) out g,
      )

pub admit_override-IsMaterialized :
    (materialize : Text → Value → Option Value) (now : ℕ) (overrides : Fields) (d : Live)
    (r : OverrideRequest)
    → admit_override materialize now overrides false d ≡ made r
    → IsMaterialized r
unfolding admit_override
admit_override-IsMaterialized materialize now overrides d r h =
    let (u, e, f) = bind-made (check_open d) _ r h in
    let (effective, g, x) =
      bind-made (materialize_overrides materialize overrides (sort_texts (keys overrides)) end) _ r
        f in
    subst IsMaterialized (made-injective _ r x) (
      materialize_overrides-Holds materialize overrides (sort_texts (keys overrides)) end effective
        g)
