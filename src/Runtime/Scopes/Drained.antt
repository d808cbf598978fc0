-- ===== src/Runtime/Scopes/Drained.antt =====
-- config_override.go: the function that Override returns, within scopes, and the scopes as a whole.
use mathlib.Core.Path.{subst}
use confii_go.Base.{
  arith, ◌≡◌, ◌≢◌, refl, sym, ◌∙◌, ap, inl, inr, ℕ, true, false, not, ◌||◌, List, [], ◌∷◌,
  Bool-cases, if-true, if-false,
}
use confii_go.Runtime.State.{OverrideFrame, Live, Settings, bump_revision}
use confii_go.Runtime.Restores.{
  reinstate_base, start_replay, replay_stack, without_frame, on_stack, restore_override,
}
use confii_go.Runtime.Scopes.{settle, overlay, Scope, opened, pushed, restored}
use confii_go.Runtime.Scopes.Payloads.{admit_override-IsMaterialized}
use confii_go.Runtime.Scopes.Calls.{override_round-committed}
use confii_go.Runtime.Scopes.Layers.{
  settle_twice, IsScoped-views, IsOutside, IsInside, IsScoped, replay_frames-overlay,
  push_override-IsInside,
}

-- The state after a frame is taken off, by the frames that are left.
abbrev rebuilt : Settings → ℕ → Live → List OverrideFrame → Live
rebuilt st now d [] = reinstate_base d
rebuilt st now d (f ∷ fs) = replay_stack st now (f ∷ fs) d

republished : Live → Live → Live
republished d l = record l { has_model = false; revision = bump_revision d.revision }

occupied : (f : OverrideFrame) (fs : List OverrideFrame) → (f ∷ fs) ≢ []
occupied f fs h = cc

rebuilt-IsScoped :
    (st : Settings) (now : ℕ) (c d : Live) (stack : List OverrideFrame)
    → IsInside c d
    → IsScoped c (republished d (rebuilt st now d stack))
unfolding IsScoped republished reinstate_base replay_stack start_replay settle
rebuilt-IsScoped st now c d [] (_, v, s, f, x) =
    inl (refl, ap settle v ∙ settle_twice c.views, s, f)
rebuilt-IsScoped st now c d (g ∷ gs) (_, v, s, f, x) = inr (
  occupied g gs,
  v,
  s,
  f,
  replay_frames-overlay st now (g ∷ gs) (start_replay d)
      ∙ ap (λ w. overlay w (g ∷ gs)) (ap settle v ∙ settle_twice c.views),
)

rebuilt_cases :
    (st : Settings) (now : ℕ) (d : Live) (stack : List OverrideFrame)
    → (elim stack [ [] ↦ reinstate_base d | f ∷ fs ↦ replay_stack st now (f ∷ fs) d ])
      ≡ rebuilt st now d stack
rebuilt_cases st now d [] = refl
rebuilt_cases st now d (f ∷ fs) = refl

outside_off :
    (c d : Live) (frame_id : ℕ) → IsOutside c d → on_stack frame_id d.override_stack ≡ false
unfolding on_stack
outside_off c d frame_id (e, _, _, _) = ap (on_stack frame_id) e

restore_override-idle :
    (st : Settings) (now frame_id : ℕ) (d : Live)
    → (d.closed || not (on_stack frame_id d.override_stack)) ≡ true
    → restore_override st now frame_id d ≡ d
unfolding restore_override
restore_override-idle st now frame_id d h = if-true _ _ _ h

restore_override-rebuilt :
    (st : Settings) (now frame_id : ℕ) (d : Live)
    → (d.closed || not (on_stack frame_id d.override_stack)) ≡ false
    → restore_override st now frame_id d
      ≡ republished d (rebuilt st now d (without_frame frame_id d.override_stack))
unfolding restore_override republished
restore_override-rebuilt st now frame_id d h =
    if-false _ _ _ h
    ∙ ap (republished d) (rebuilt_cases st now d (without_frame frame_id d.override_stack))

restore_override-IsScoped :
    (st : Settings) (now frame_id : ℕ) (c d : Live)
    → IsScoped c d
    → IsScoped c (restore_override st now frame_id d)
unfolding IsScoped
restore_override-IsScoped st now frame_id c d (inl o) =
    subst (IsScoped c)
      (sym (restore_override-idle st now frame_id d (ground (arith, outside_off c d frame_id o))))
      (inl o)
restore_override-IsScoped st now frame_id c d (inr h) =
    elim (Bool-cases (d.closed || not (on_stack frame_id d.override_stack))) [
      | inl e ↦ subst (IsScoped c) (sym (restore_override-idle st now frame_id d e)) (inr h)
      | inr e ↦
          subst (IsScoped c) (sym (restore_override-rebuilt st now frame_id d e))
            (rebuilt-IsScoped st now c d (without_frame frame_id d.override_stack) h)
    ]

Scope-IsScoped :
    (st : Settings) (c : Live) {d : Live} → c.override_stack ≡ [] → Scope st c d → IsScoped c d
unfolding IsScoped
Scope-IsScoped st c e opened = inl (e, refl, refl, refl)
Scope-IsScoped st c e (pushed {d = d} materialize now overrides r scope admitted done) =
    let (candidate, h, published) = override_round-committed st r d _ done in
    subst (IsScoped c) published (
      inr (
        push_override-IsInside st c d r candidate
          (admit_override-IsMaterialized materialize now overrides d r admitted) h
          (Scope-IsScoped st c e scope)))
Scope-IsScoped st c e (restored {d = d} now frame_id scope) =
    restore_override-IsScoped st now frame_id c d (Scope-IsScoped st c e scope)

-- From a state without overrides, after any calls of Override and of the functions that they return,
-- in any order, the three maps are the first ones with the frames that are left laid over them in
-- the order of their pushes.
pub Scope-overlay :
    {c d : Live} (st : Settings)
    → c.override_stack ≡ []
    → Scope st c d
    → settle d.views ≡ overlay (settle c.views) d.override_stack
Scope-overlay {c = c} {d = d} st e scope = IsScoped-views c d (Scope-IsScoped st c e scope)

-- From a state without overrides, when each frame is taken off again, in any order, the three maps, the
-- sensitive paths and the frozen flag are those of the first state.
pub Scope-drained :
    {c d : Live} (st : Settings)
    → c.override_stack ≡ []
    → Scope st c d
    → d.override_stack ≡ []
    → (settle d.views ≡ settle c.views)
      × (d.sensitive_paths ≡ c.sensitive_paths)
      × (d.frozen ≡ c.frozen)
unfolding IsScoped
Scope-drained {c = c} st e scope drained = elim (Scope-IsScoped st c e scope) [
  | inl (_, v, s, f) ↦ (v, s, f)
  | inr (some_left, _, _, _, _) ↦ absurd (some_left drained)
]
