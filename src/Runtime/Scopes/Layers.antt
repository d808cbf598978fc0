-- ===== src/Runtime/Scopes/Layers.antt =====
-- config_override.go: the live state within scopes of overrides.
use confii_go.Base.{◌≡◌, ◌≢◌, refl, sym, ◌∙◌, ap, ◌⊎◌, inl, inr, ℕ, List, [], ◌∷◌, ◌++◌, Text}
use confii_go.Base.Sort.{sort_texts}
use confii_go.Value.Maps.{keys}
use confii_go.Runtime.State.{Views, OverrideFrame, OverrideBase, Live, Settings, made}
use confii_go.Runtime.Candidates.{Candidate, snapshot_candidate, publish_candidate}
use confii_go.Runtime.Overrides.{OverrideRequest, set_overrides, capture_base, push_override}
use confii_go.Runtime.Restores.{Replay, replay_key, replay_keys, replay_frames}
use confii_go.Runtime.Scopes.{settle, lay_keys, lay_frame, overlay}
use confii_go.Runtime.Scopes.Settled.{settle-IsSettled, settle_lem, overlay-IsSettled}
use confii_go.Runtime.Scopes.Payloads.{IsMaterialized}
use confii_go.Runtime.Scopes.Pushes.{frame_of, set_overrides-lay_keys}

overlay-append :
    (v : Views) (fs gs : List OverrideFrame) → overlay v (fs ++ gs) ≡ overlay (overlay v fs) gs
unfolding overlay
overlay-append v [] gs = refl
overlay-append v (f ∷ fs) gs = overlay-append (lay_frame f v) fs gs

-- The maps that a replay rebuilds.
replay_keys-lay_keys :
    (st : Settings) (now : ℕ) (f : OverrideFrame) (ks : List Text) (r : Replay)
    → (replay_keys st now f ks r).replayed ≡ lay_keys f ks r.replayed
unfolding replay_keys replay_key lay_keys
replay_keys-lay_keys st now f [] r = refl
replay_keys-lay_keys st now f (k ∷ ks) r =
    replay_keys-lay_keys st now f ks (replay_key st now f k r)

pub replay_frames-overlay :
    (st : Settings) (now : ℕ) (fs : List OverrideFrame) (r : Replay)
    → (replay_frames st now fs r).replayed ≡ overlay r.replayed fs
unfolding replay_frames overlay lay_frame
replay_frames-overlay st now [] r = refl
replay_frames-overlay st now (f ∷ fs) r =
    replay_frames-overlay st now fs (replay_keys st now f (sort_texts (keys f.payload)) r)
    ∙ ap (λ v. overlay v fs) (replay_keys-lay_keys st now f (sort_texts (keys f.payload)) r)

-- Outside of the scopes: what was there before the first of them.
abbrev pub IsOutside : Live → Live → Type 0
IsOutside c d =
    (d.override_stack ≡ [])
    × (settle d.views ≡ settle c.views)
    × (d.sensitive_paths ≡ c.sensitive_paths)
    × (d.frozen ≡ c.frozen)

-- Inside them: the base is what was there, and the live maps have the frames laid over it.
abbrev pub IsInside : Live → Live → Type 0
IsInside c d =
    (d.override_stack ≢ [])
    × (d.override_base.base_views ≡ settle c.views)
    × (d.override_base.base_sensitive ≡ c.sensitive_paths)
    × (d.override_base.base_frozen ≡ c.frozen)
    × (d.views ≡ overlay (settle c.views) d.override_stack)

unfoldable pub IsScoped : Live → Live → Type 0
IsScoped c d = IsOutside c d ⊎ IsInside c d

pub settle_twice : (v : Views) → settle (settle v) ≡ settle v
settle_twice v = settle_lem (settle v) (settle-IsSettled v)

IsInside-views :
    (c d : Live) → IsInside c d → settle d.views ≡ overlay (settle c.views) d.override_stack
IsInside-views c d (_, _, _, _, h) =
    ap settle h
    ∙ settle_lem (overlay (settle c.views) d.override_stack)
        (overlay-IsSettled (settle c.views) d.override_stack (settle-IsSettled c.views))

-- In both cases the maps, as the operations read them, have the frames laid over what was there.
pub IsScoped-views :
    (c d : Live) → IsScoped c d → settle d.views ≡ overlay (settle c.views) d.override_stack
unfolding IsScoped overlay
IsScoped-views c d (inl (e, v, _, _)) = rw e v
IsScoped-views c d (inr h) = IsInside-views c d h

base_of_none :
    (s : List OverrideFrame) (x y : OverrideBase) → s ≡ [] → (elim s [ [] ↦ x | f ∷ fs ↦ y ]) ≡ x
base_of_none [] x y h = refl
base_of_none (f ∷ fs) x y h = cc

base_of_some :
    (s : List OverrideFrame) (x y : OverrideBase) → s ≢ [] → (elim s [ [] ↦ x | f ∷ fs ↦ y ]) ≡ y
base_of_some [] x y h = absurd (h refl)
base_of_some (f ∷ fs) x y h = refl

append_one : (s : List OverrideFrame) (f : OverrideFrame) → (s ++ (f ∷ [])) ≢ []
append_one [] f h = cc
append_one (g ∷ s) f h = cc

push_override-views :
    (st : Settings) (c d : Live) (r : OverrideRequest) (frame_id : ℕ) (candidate : Candidate)
    → IsMaterialized r
    → set_overrides st r (sort_texts (keys r.raw_overrides)) (snapshot_candidate d) ≡ made candidate
    → IsScoped c d
    → candidate.new_views
      ≡ overlay (settle c.views) (d.override_stack ++ (frame_of r frame_id ∷ []))
unfolding overlay lay_frame snapshot_candidate settle
push_override-views st c d r frame_id candidate full h scoped = sym (
    overlay-append (settle c.views) d.override_stack (frame_of r frame_id ∷ [])
    ∙ ap (lay_frame (frame_of r frame_id)) (sym (IsScoped-views c d scoped))
    ∙ set_overrides-lay_keys st r frame_id (sort_texts (keys r.raw_overrides))
        (snapshot_candidate d) candidate full h)

pub push_override-IsInside :
    (st : Settings) (c d : Live) (r : OverrideRequest) (candidate : Candidate)
    → IsMaterialized r
    → set_overrides st r (sort_texts (keys r.raw_overrides)) (snapshot_candidate d) ≡ made candidate
    → IsScoped c d
    → IsInside c (push_override r candidate d)
unfolding push_override publish_candidate IsScoped settle capture_base
push_override-IsInside st c d r candidate full h (inl (e, v, s, f)) =
    let base = base_of_none d.override_stack (capture_base d) d.override_base e in
    (
      append_one d.override_stack _,
      ap (λ (b : OverrideBase). b.base_views) base ∙ v,
      ap (λ (b : OverrideBase). b.base_sensitive) base ∙ s,
      ap (λ (b : OverrideBase). b.base_frozen) base ∙ f,
      push_override-views st c d r _ candidate full h (inl (e, v, s, f)),
    )
push_override-IsInside st c d r candidate full h (inr (e, v, s, f, x)) =
    let base = base_of_some d.override_stack (capture_base d) d.override_base e in
    (
      append_one d.override_stack _,
      ap (λ (b : OverrideBase). b.base_views) base ∙ v,
      ap (λ (b : OverrideBase). b.base_sensitive) base ∙ s,
      ap (λ (b : OverrideBase). b.base_frozen) base ∙ f,
      push_override-views st c d r _ candidate full h (inr (e, v, s, f, x)),
    )
