-- ===== src/Hook/Order.antt =====
-- In which order the hooks run.
use mathlib.Core.Option.{some-injective}
use confii_go.Base.{
  ◌≡◌, refl, sym, ◌∙◌, ap, inl, inr, ℕ, true, false, Option, none, some, List, [], ◌∷◌, ◌++◌,
}
use confii_go.Base.{Text, text_eq, Bool-cases, Option-cases}
use confii_go.Base.Dict.{Dict, put, find-put_other}
use confii_go.Value.{Value}
use confii_go.Value.Equality.{deep_equal}
use confii_go.Hook.{
  next_revision, Reply, Func, Processor, ValueEntry, hooks_of, register_key_hook, add_value_hook,
  register_value_hook,
}
use confii_go.Hook.{
  register_global_hook, matching_value_hooks, and_then, poll_context, run_hooks, run_conditions,
  process,
}

module _ (W E : Type 0) where
  and_then_go :
      (r : Reply W E) (f : Value → W → Reply W E)
      → r.err ≡ none
      → and_then W E r f ≡ f r.value r.world
  unfolding and_then
  and_then_go r f e = rw (e, and_then) refl

  and_then_stop :
      (r : Reply W E) (f : Value → W → Reply W E) (x : E) → r.err ≡ some x → and_then W E r f ≡ r
  unfolding and_then
  and_then_stop r f x e = go r.err e
    where
      go : (o : Option E) → o ≡ some x → (elim o [ some y ↦ r | none ↦ f r.value r.world ]) ≡ r
      go none z = cc
      go (some y) z = refl

  and_then_assoc :
      (r : Reply W E) (f g : Value → W → Reply W E)
      → and_then W E (and_then W E r f) g ≡ and_then W E r (λ v w. and_then W E (f v w) g)
  and_then_assoc r f g = elim (Option-cases r.err) [
    | inl e ↦ ap (λ x. and_then W E x g) (and_then_go r f e) ∙ sym (and_then_go r _ e)
    | inr (x, e) ↦
        ap (λ y. and_then W E y g) (and_then_stop r f x e)
        ∙ and_then_stop r g x e
        ∙ sym (and_then_stop r _ x e)
  ]

  -- What follows a reply may be replaced by what agrees with it everywhere.
  and_then_cong :
      (r : Reply W E) (f g : Value → W → Reply W E)
      → ((v : Value) (w : W) → f v w ≡ g v w)
      → and_then W E r f ≡ and_then W E r g
  and_then_cong r f g h = λ i. and_then W E r (λ v w. h v w i)

  -- A step at the end of what follows a reply is a step at the end of all.
  and_then_last :
      (r : Reply W E) (f g last : Value → W → Reply W E)
      → ((v : Value) (w : W) → f v w ≡ and_then W E (g v w) last)
      → and_then W E r f ≡ and_then W E (and_then W E r g) last
  and_then_last r f g last h = and_then_cong r f _ h ∙ sym (and_then_assoc r g last)

  matching-add_value_hook :
      (v : Value) (h : Func W E) (es : List (ValueEntry W E))
      → deep_equal v v ≡ true
      → matching_value_hooks W E v (add_value_hook W E v h es)
        ≡ matching_value_hooks W E v es ++ (h ∷ [])
  unfolding matching_value_hooks add_value_hook
  matching-add_value_hook v h [] same = rw (same, matching_value_hooks) refl
  matching-add_value_hook v h (entry ∷ rest) same =
      elim (Bool-cases (deep_equal entry.matching v)) [
        | inl e ↦ rw (e, matching_value_hooks) (rw (e, matching_value_hooks) refl)
        | inr e ↦
            rw (e, matching_value_hooks)
              (rw (e, matching_value_hooks) (matching-add_value_hook v h rest same))
      ]

  -- If a value equals itself deeply, then a hook registered for it comes last among the hooks that
  -- it selects, after those that it selected before.
  pub matching-register_value_hook :
      (p q : Processor W E) (h : Func W E) (v : Value)
      → deep_equal v v ≡ true
      → register_value_hook W E v (some h) p ≡ some q
      → matching_value_hooks W E v q.value_hooks
        ≡ matching_value_hooks W E v p.value_hooks ++ (h ∷ [])
  unfolding register_value_hook
  matching-register_value_hook p q h v same e =
      ap (λ x. matching_value_hooks W E v x.value_hooks) (sym (some-injective _ q e))
      ∙ matching-add_value_hook v h p.value_hooks same

  module _ (ctx_err : W → Option E × W) where
    and_then-poll_context :
        (next f : Value → W → Reply W E) (v : Value) (w : W)
        → and_then W E (poll_context W E ctx_err next v w) f
          ≡ poll_context W E ctx_err (λ u x. and_then W E (next u x) f) v w
    unfolding poll_context and_then
    and_then-poll_context next f v w = go (ctx_err w).0 (ctx_err w).1
      where
        go :
            (o : Option E) (x : W)
            → and_then W E
                (elim o [
                  | some err ↦ record { value = v; err = some err; world = x }
                  | none ↦ next v x
                ])
                f
              ≡ (elim o [
                | some err ↦ record { value = v; err = some err; world = x }
                | none ↦ and_then W E (next v x) f
              ])
        go none x = refl
        go (some y) x = refl

    poll_context_cong :
        (f g : Value → W → Reply W E) (v : Value) (w : W)
        → ((u : Value) (x : W) → f u x ≡ g u x)
        → poll_context W E ctx_err f v w ≡ poll_context W E ctx_err g v w
    poll_context_cong f g v w h = λ i. poll_context W E ctx_err (λ u x. h u x i) v w

    run_hooks-append :
        (hs js : List (Func W E)) (key : Text) (v : Value) (w : W)
        → run_hooks W E ctx_err (hs ++ js) key v w
          ≡ and_then W E (run_hooks W E ctx_err hs key v w) (run_hooks W E ctx_err js key)
    run_hooks-append [] js key v w = unfold run_hooks and_then in refl
    run_hooks-append (h ∷ hs) js key v w =
        step h (hs ++ js) key v w
        ∙ poll_context_cong _ _ v w (λ u x.
          and_then_cong (h key u x) (run_hooks W E ctx_err (hs ++ js) key) _
            (λ a b. run_hooks-append hs js key a b)
          ∙ sym (
              and_then_assoc (h key u x) (run_hooks W E ctx_err hs key)
                (run_hooks W E ctx_err js key)))
        ∙ sym (and_then-poll_context _ (run_hooks W E ctx_err js key) v w)
        ∙ ap (λ r. and_then W E r (run_hooks W E ctx_err js key)) (sym (step h hs key v w))
      where
        step :
            (h : Func W E) (hs : List (Func W E)) (key : Text) (v : Value) (w : W)
            → run_hooks W E ctx_err (h ∷ hs) key v w
              ≡ poll_context W E ctx_err
                  (λ u x. and_then W E (h key u x) (run_hooks W E ctx_err hs key))
                  v
                  w
        step h hs key v w = unfold run_hooks in refl

    -- A new global hook runs after the whole pipeline as it was before, on its result; it does not
    -- run if that ends with an error.
    pub process-register_global_hook :
        (p q : Processor W E) (h : Func W E) (key : Text) (v : Value) (w : W)
        → register_global_hook W E (some h) p ≡ some q
        → process W E ctx_err q key v w
          ≡ and_then W E (process W E ctx_err p key v w) (run_hooks W E ctx_err (h ∷ []) key)
    unfolding register_global_hook
    process-register_global_hook p q h key v w e =
        ap (λ x. process W E ctx_err x key v w) (sym (some-injective _ q e)) ∙ last p
      where
        last :
            (p : Processor W E)
            → process W E ctx_err
                (record p {
                  global_hooks = p.global_hooks ++ (h ∷ []);
                  revision = next_revision W E p.revision;
                })
                key
                v
                w
              ≡ and_then W E (process W E ctx_err p key v w) (run_hooks W E ctx_err (h ∷ []) key)
        last p =
            unfold process in
            (poll_context_cong _ _ v w (λ u w0.
                and_then_last (run_hooks W E ctx_err (hooks_of W E key p.key_hooks) key u w0) _ _ _
                  (λ u1 w1.
                    and_then_last
                      (run_hooks W E ctx_err (matching_value_hooks W E u1 p.value_hooks) key u1 w1)
                      _ _ _
                      (λ u2 w2.
                        and_then_last (run_conditions W E ctx_err p.condition_hooks key u2 w2) _ _ _
                          (λ u3 w3. run_hooks-append p.global_hooks (h ∷ []) key u3 w3))))
              ∙ sym (and_then-poll_context _ (run_hooks W E ctx_err (h ∷ []) key) v w))

    process_same_hooks :
        (p : Processor W E) (d : Dict (List (Func W E))) (r : ℕ) (key : Text) (v : Value) (w : W)
        → hooks_of W E key d ≡ hooks_of W E key p.key_hooks
        → process W E ctx_err (record p { key_hooks = d; revision = r }) key v w
          ≡ process W E ctx_err p key v w
    unfolding process
    process_same_hooks p d r key v w e = rw e refl

    hooks_of-put :
        (j key : Text) (hs : List (Func W E)) (d : Dict (List (Func W E)))
        → text_eq j key ≡ false
        → hooks_of W E key (put j hs d) ≡ hooks_of W E key d
    unfolding hooks_of
    hooks_of-put j key hs d other = rw (find-put_other j key hs d other, hooks_of) refl

    -- The registration of a hook for one key changes nothing for another key.
    pub process-register_key_hook :
        (p q : Processor W E) (h : Func W E) (j key : Text) (v : Value) (w : W)
        → text_eq j key ≡ false
        → register_key_hook W E j (some h) p ≡ some q
        → process W E ctx_err q key v w ≡ process W E ctx_err p key v w
    unfolding register_key_hook
    process-register_key_hook p q h j key v w other e =
        ap (λ x. process W E ctx_err x key v w) (sym (some-injective _ q e))
        ∙ process_same_hooks p _ _ key v w (hooks_of-put j key _ p.key_hooks other)
