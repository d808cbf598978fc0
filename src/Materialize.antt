-- ===== src/Materialize.antt =====
-- config_materialize.go: the hooks over a whole configuration, before it is published.
-- The processor may depend on the unresolved configuration, which the hooks find in the context. `W` and
-- `E` are as in the model of hook/processor.go. The entries are resolved one after the other, as with a
-- SecretResolutionConcurrency of at most 1; Workers has the parallel resolution of a map. A context that is nil is left out.
pub mod Entries
pub mod Workers
use confii_go.Base.{ℕ, Bool, true, false, Option, none, some, List, [], ◌∷◌}
use confii_go.Base.{Text, if◌then◌else◌}
use confii_go.Base.Split.{is_empty}
use confii_go.Value.{
  Value, Items, Fields, null, mapping, nil_mapping, sequence, nil, cons, end, field,
}
use confii_go.Configmap.{extend, set}
use confii_go.Hook.{Reply, Processor, process}

pub data Resolved {ℓ} (E : Type 0) (A : Type ℓ) : Type ℓ where
  resolved : A → Resolved E A
  halted : E → Resolved E A

-- An error ends what follows.
abbrev pub on_resolved {ℓ κ} :
    {W E : Type 0} {A : Type ℓ} {B : Type κ}
    → Resolved E A × W
    → (A → W → Resolved E B × W)
    → Resolved E B × W
on_resolved (resolved a, w) next = next a w
on_resolved (halted e, w) next = (halted e, w)

module _ (W E : Type 0) (ctx_err : W → Option E × W) where
  -- `if err := ctx.Err(); err != nil { return nil, err }`
  unfoldable pub polled {ℓ} : {A : Type ℓ} → (W → Resolved E A × W) → W → Resolved E A × W
  polled next w = let (e, w1) = ctx_err w in elim e [ some err ↦ (halted err, w1) | none ↦ next w1 ]

  unfoldable pub materialize_leaf : Processor W E → Text → Value → W → Resolved E Value × W
  materialize_leaf p path value w =
      let r = process W E ctx_err p path value w in
      elim r.err [ some e ↦ (halted e, r.world) | none ↦ (resolved r.value, r.world) ]

  module _ (p : Processor W E) where
    -- `applySecretHookRecursiveMode` without its branch to the workers, `applySecretHookToSlice`, and the
    -- switch in their loops.
    unfoldable mutual
      unfolding polled materialize_leaf

      pub materialize_value : Text → Value → W → Resolved E Value × W
      materialize_value path (mapping m) w =
          on_resolved (materialize_fields path m w) (λ m' w1. (resolved (mapping m'), w1))
      materialize_value path nil_mapping w = (resolved nil_mapping, w)
      materialize_value path (sequence xs) w =
          on_resolved (materialize_items path xs w) (λ xs' w1. (resolved (sequence xs'), w1))
      materialize_value path v w = materialize_leaf p path v w

      pub materialize_fields : Text → Fields → W → Resolved E Fields × W
      materialize_fields path end w = (resolved end, w)
      materialize_fields path (field k v rest) w =
          polled
            (λ w1. on_resolved (materialize_value (extend path k) v w1) (λ v' w2.
              on_resolved (materialize_fields path rest w2)
                (λ rest' w3. (resolved (field k v' rest'), w3))))
            w

      pub materialize_items : Text → Items → W → Resolved E Items × W
      materialize_items path nil w = (resolved nil, w)
      materialize_items path (cons x xs) w =
          polled
            (λ w1. on_resolved (materialize_value path x w1) (λ x' w2.
              on_resolved (materialize_items path xs w2) (λ xs' w3. (resolved (cons x' xs'), w3))))
            w

  -- The error of `Set` is dropped, with the map as it then is.
  unfoldable pub materialization_self_root : Option Fields → Text → Value → Fields
  materialization_self_root unresolved path value =
      let root : Fields = elim unresolved [ none ↦ end | some m ↦ m ] in
      if is_empty path
      then root
      else elim ((set (some root) path value).0) [ none ↦ root | some written ↦ written ]

  -- `materializeEffectiveValue`
  unfoldable pub materialize_effective_value :
      (Fields → Processor W E) → Option Fields → Text → Value → W → Resolved E Value × W
  materialize_effective_value processor unresolved path value w =
      polled
        (λ w1.
          materialize_value (processor (materialization_self_root unresolved path value)) path value
            w1)
        w
