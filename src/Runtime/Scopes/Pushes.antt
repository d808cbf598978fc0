-- ===== src/Runtime/Scopes/Pushes.antt =====
-- config_override.go: the maps that Override writes.
use confii_go.Base.{
  ◌≡◌, refl, ◌∙◌, ap, ℕ, Bool, true, false, Option, none, some, List, [], ◌∷◌, Text, codes, All,
}
use confii_go.Value.{Value, Fields}
use confii_go.Value.Maps.{lookup}
use confii_go.Configmap.{PathError, set}
use confii_go.Diff.{value_or_nil}
use confii_go.Runtime.State.{Views, OverrideFrame, Settings, made, refused, path_refused}
use confii_go.Runtime.Candidates.{Candidate, write_view, write_views, set_candidate}
use confii_go.Runtime.Overrides.{OverrideRequest, set_overrides}
use confii_go.Runtime.Restores.{try_set, replay_views}
use confii_go.Runtime.Atomic.{bind-made, made-injective}
use confii_go.Runtime.Scopes.{lay_keys}
use confii_go.Runtime.Scopes.Payloads.{Holds}

-- A write that Override accepts is one that the replay accepts, with the same map.
write_view-try_set :
    (k : Text) (v : Value) (m written : Option Fields)
    → write_view k v m ≡ made written
    → try_set k v m ≡ (written, true)
unfolding write_view try_set
write_view-try_set k v m written h = go ((set m k v).0) ((set m k v).1) h
  where
    go :
        (w : Option Fields) (e : Option PathError)
        → (elim e [ none ↦ made w | some err ↦ refused (path_refused k err) ]) ≡ made written
        → ◌≡◌ {A = Option Fields × Bool}
            (w, elim e [ none ↦ true | some err ↦ false ])
            (written, true)
    go w none x = ap (λ y. (y, true)) (made-injective w written x)
    go w (some err) x = cc

write_views-replay_views :
    (k : Text) (raw effective : Value) (old new : Views)
    → write_views k raw effective old ≡ made new
    → (replay_views k raw effective old).0 ≡ new
unfolding write_views replay_views
write_views-replay_views k raw effective old new h =
    let (env, a, rest) = bind-made (write_view k effective old.env_config) _ new h in
    let (unresolved, b, rest2) = bind-made (write_view k raw old.unresolved) _ new rest in
    let (merged, c, rest3) = bind-made (write_view k raw old.merged) _ new rest2 in
    rw (write_view-try_set k effective old.env_config env a) (
      rw (write_view-try_set k raw old.unresolved unresolved b)
        (rw (write_view-try_set k raw old.merged merged c) (made-injective _ new rest3)))

set_candidate-replay_views :
    (st : Settings) (now : ℕ) (k : Text) (raw effective : Value) (source : Text)
    (snap candidate : Candidate)
    → set_candidate st now k raw effective source snap ≡ made candidate
    → (replay_views k raw effective snap.new_views).0 ≡ candidate.new_views
unfolding set_candidate
set_candidate-replay_views st now k raw effective source snap candidate h =
    let (v, e, f) = bind-made (write_views k raw effective snap.new_views) _ candidate h in
    write_views-replay_views k raw effective snap.new_views v e
    ∙ ap (λ (x : Candidate). x.new_views) (made-injective _ candidate f)

effective_of :
    (k : Text) (raw : Value) (m : Fields)
    → Holds m k
    → (elim (lookup k m) [ none ↦ raw | some e ↦ e ]) ≡ value_or_nil (lookup k m)
effective_of k raw m (e, h) = rw h refl

-- The frame of a call.
abbrev pub frame_of : OverrideRequest → ℕ → OverrideFrame
frame_of r frame_id = record {
  id = frame_id;
  payload = r.raw_overrides;
  effective_payload = r.effective_overrides;
}

pub set_overrides-lay_keys :
    (st : Settings) (r : OverrideRequest) (frame_id : ℕ) (ks : List Text)
    (snap candidate : Candidate)
    → All (Holds r.effective_overrides) ks
    → set_overrides st r ks snap ≡ made candidate
    → lay_keys (frame_of r frame_id) ks snap.new_views ≡ candidate.new_views
unfolding set_overrides lay_keys
set_overrides-lay_keys st r frame_id [] snap candidate p h =
    ap (λ (x : Candidate). x.new_views) (made-injective snap candidate h)
set_overrides-lay_keys st r frame_id (k ∷ ks) snap candidate (here, later) h =
    let raw = value_or_nil (lookup k r.raw_overrides) in
    let effective = value_or_nil (lookup k r.effective_overrides) in
    let (middle, e, f) =
      bind-made (set_candidate st r.override_now k raw effective (codes "override") snap) _
        candidate h in
    ap (λ x. lay_keys (frame_of r frame_id) ks ((replay_views k raw x snap.new_views).0))
      (effective_of k raw r.effective_overrides here)
    ∙ ap (lay_keys (frame_of r frame_id) ks) (
        set_candidate-replay_views st r.override_now k raw effective (codes "override") snap middle
          e)
    ∙ set_overrides-lay_keys st r frame_id ks middle candidate later f
