-- ===== src/Multi/Canceled.antt =====
-- secret/multi.go: where a call of GetSecret is given up.
use mathlib.Core.Path.{subst}
use confii_go.Base.{◌≡◌, refl, sym, ◌∙◌, ap, Bool, true, false, Option, none, some}
use confii_go.Base.{Text}
use confii_go.Value.{Value}
use confii_go.Multi.{
  Failure, reported, no_value, taken, failure_of, cancellation, failing, Consulted, took, ended,
  erred, Store, consult,
}

module _ {W E : Type 0} (is_not_found is_canceled : E → Bool) (ctx_err : W → Option E × W) where
  -- The call to the store is given up at a cancellation: one that the context shows before the call, or
  -- after a call without a value, or one that the store reports.
  pub data Canceled (key : Text) (s : Store W E) (w : W) (f : Failure E) (w' : W) : Type 0 where
    before_call : (e : E) → ctx_err w ≡ (some e, w') → f ≡ reported e → Canceled key s w f w'
    after_call :
        (e : E) (w1 : W)
        → ctx_err w ≡ (none, w1)
        → taken W E (s.get key w1) ≡ none
        → ctx_err (s.get key w1).get_world ≡ (some e, w')
        → f ≡ reported e
        → Canceled key s w f w'
    by_store :
        (e : E) (w1 : W)
        → ctx_err w ≡ (none, w1)
        → (s.get key w1).get_err ≡ some e
        → ctx_err (s.get key w1).get_world ≡ (none, w')
        → is_canceled e ≡ true
        → f ≡ reported e
        → Canceled key s w f w'

  ended-injective :
      (f g : Failure E) (w w' : W)
      → ◌≡◌ {A = Consulted W E} (ended f w) (ended g w')
      → (f ≡ g) × (w ≡ w')
  ended-injective f g w w' h = (ap fst h, ap snd h)
    where
      fst : Consulted W E → Failure E
      fst (took v x) = f
      fst (ended e x) = e
      fst (erred e x) = f

      snd : Consulted W E → W
      snd (took v x) = w
      snd (ended e x) = x
      snd (erred e x) = x

  -- The failures that are cancellations are those of a store's error.
  cancellation-Canceled :
      (key : Text) (s : Store W E) (w w1 w' : W) (a : Option E)
      → a ≡ (s.get key w1).get_err
      → ctx_err w ≡ (none, w1)
      → ctx_err (s.get key w1).get_world ≡ (none, w')
      → cancellation W E is_not_found is_canceled
          (elim a [ none ↦ no_value key | some e ↦ reported e ])
        ≡ true
      → Canceled key s w (elim a [ none ↦ no_value key | some e ↦ reported e ]) w'
  cancellation-Canceled key s w w1 w' none h b c x = cc
  cancellation-Canceled key s w w1 w' (some e) h b c x = by_store e w1 b (sym h) c x refl

  failing-ended :
      (key : Text) (s : Store W E) (w w1 w' : W) (f : Failure E)
      → ctx_err w ≡ (none, w1)
      → taken W E (s.get key w1) ≡ none
      → failing W E is_not_found is_canceled ctx_err
          (failure_of W E key (s.get key w1))
          (s.get key w1).get_world
        ≡ ended f w'
      → Canceled key s w f w'
  unfolding failing
  failing-ended key s w w1 w' f b t h =
      go (ctx_err (s.get key w1).get_world) refl
        (cancellation W E is_not_found is_canceled (failure_of W E key (s.get key w1))) refl h
    where
      go :
          (r : Option E × W)
          → ctx_err (s.get key w1).get_world ≡ r
          → (c : Bool)
          → cancellation W E is_not_found is_canceled (failure_of W E key (s.get key w1)) ≡ c
          → ◌≡◌ {A = Consulted W E}
              (elim r.0 [
                | some e ↦ ended (reported e) r.1
                | none ↦ elim c [
                  | true ↦ ended (failure_of W E key (s.get key w1)) r.1
                  | false ↦ erred (failure_of W E key (s.get key w1)) r.1
                ]
              ])
              (ended f w')
          → Canceled key s w f w'
      go (some e, w2) x c y k =
          let (p, q) = ended-injective (reported e) f w2 w' k in
          after_call e w1 b t (x ∙ ap (λ (z : W). (some e, z)) q) (sym p)
      go (none, w2) x true y k =
          let (p, q) = ended-injective (failure_of W E key (s.get key w1)) f w2 w' k in
          subst (λ (g : Failure E). Canceled key s w g w') p
            (cancellation-Canceled key s w w1 w' (s.get key w1).get_err refl b
              (x ∙ ap (λ (z : W). (none, z)) q) y)
      go (none, w2) x false y k = cc

  pub consult-ended :
      (key : Text) (s : Store W E) (w w' : W) (f : Failure E)
      → consult W E is_not_found is_canceled ctx_err key s w ≡ ended f w'
      → Canceled key s w f w'
  unfolding consult
  consult-ended key s w w' f h = go (ctx_err w) refl h
    where
      called :
          (w1 : W)
          → ctx_err w ≡ (none, w1)
          → (o : Option Value) → taken W E (s.get key w1) ≡ o
          → ◌≡◌ {A = Consulted W E}
              (elim o [
                | some v ↦ took v (s.get key w1).get_world
                | none ↦
                    failing W E is_not_found is_canceled ctx_err
                      (failure_of W E key (s.get key w1))
                      (s.get key w1).get_world
              ])
              (ended f w')
          → Canceled key s w f w'
      called w1 b none t k = failing-ended key s w w1 w' f b t k
      called w1 b (some v) t k = cc

      go :
          (r : Option E × W)
          → ctx_err w ≡ r
          → ◌≡◌ {A = Consulted W E}
              (elim r.0 [
                | some e ↦ ended (reported e) r.1
                | none ↦ elim (taken W E (s.get key r.1)) [
                  | some v ↦ took v (s.get key r.1).get_world
                  | none ↦
                      failing W E is_not_found is_canceled ctx_err
                        (failure_of W E key (s.get key r.1))
                        (s.get key r.1).get_world
                ]
              ])
              (ended f w')
          → Canceled key s w f w'
      go (some e, w1) x k =
          let (p, q) = ended-injective (reported e) f w1 w' k in
          before_call e (x ∙ ap (λ (z : W). (some e, z)) q) (sym p)
      go (none, w1) x k = called w1 x (taken W E (s.get key w1)) refl k
