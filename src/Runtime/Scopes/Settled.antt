-- ===== src/Runtime/Scopes/Settled.antt =====
-- config_override.go: a replay over maps whose unresolved map is there.
use confii_go.Base.{
  ◌≡◌, ◌≢◌, inl, inr, refl, sym, ◌∙◌, ap, Bool, true, false, not, Option, none, some, List, [], ◌∷◌,
  Text, if◌then◌else◌, Bool-cases, if-true, if-false,
}
use confii_go.Base.Sort.{sort_texts}
use confii_go.Value.{Value, Fields}
use confii_go.Value.Maps.{keys}
use confii_go.Configmap.{PathError, parse, set}
use confii_go.Runtime.State.{Views, OverrideFrame}
use confii_go.Runtime.Restores.{try_set, replay_views}
use confii_go.Runtime.Scopes.{settle, lay_keys, lay_frame, overlay}

-- Without an unresolved map there is no materialized one.
abbrev pub IsSettled : Views → Type 0
IsSettled v = v.unresolved ≡ none → v.env_config ≡ none

settled_maps :
    (env unresolved : Option Fields)
    → (elim unresolved [ none ↦ env | some m ↦ some m ]) ≡ none
    → env ≡ none
settled_maps env none h = h
settled_maps env (some m) h = cc

pub settle-IsSettled : (v : Views) → IsSettled (settle v)
unfolding settle
settle-IsSettled v h = settled_maps v.env_config v.unresolved h

pub settle_lem : (v : Views) → IsSettled v → settle v ≡ v
unfolding settle
settle_lem v h = ap (put v.env_config v.merged) (go v.env_config v.unresolved h)
  where
    put : Option Fields → Option Fields → Option Fields → Views
    put env merged raw = record { env_config = env; unresolved = raw; merged = merged }

    go :
        (env unresolved : Option Fields)
        → (unresolved ≡ none → env ≡ none)
        → (elim unresolved [ none ↦ env | some m ↦ some m ]) ≡ unresolved
    go env none f = f refl
    go env (some m) f = refl

-- A write to no map leaves no map, and to a map a map.
set-none : (k : Text) (v : Value) → (set none k v).0 ≡ none
unfolding set
set-none k v = elim (Bool-cases ((parse k).1)) [
  | inl e ↦ ap (λ (p : Option Fields × Option PathError). p.0) (if-true _ _ _ e)
  | inr e ↦ ap (λ (p : Option Fields × Option PathError). p.0) (if-false _ _ _ e)
]

set-some : (k : Text) (v : Value) (m : Fields) → (set (some m) k v).0 ≢ none
unfolding set
set-some k v m h = elim (Bool-cases ((parse k).1)) [
  | inl e ↦ cc (sym (ap (λ (p : Option Fields × Option PathError). p.0) (if-true _ _ _ e)) ∙ h)
  | inr e ↦ cc (sym (ap (λ (p : Option Fields × Option PathError). p.0) (if-false _ _ _ e)) ∙ h)
]

try_set-none : (k : Text) (v : Value) (m : Option Fields) → m ≡ none → (try_set k v m).0 ≡ none
unfolding try_set
try_set-none k v m h = ap (λ (x : Option Fields). (set x k v).0) h ∙ set-none k v

none-try_set : (k : Text) (v : Value) (m : Option Fields) → (try_set k v m).0 ≡ none → m ≡ none
unfolding try_set
none-try_set k v none h = refl
none-try_set k v (some m) h = absurd (set-some k v m h)

replay_views-IsSettled :
    (k : Text) (raw effective : Value) (v : Views)
    → IsSettled v
    → IsSettled ((replay_views k raw effective v).0)
unfolding replay_views
replay_views-IsSettled k raw effective v settled =
    go ((try_set k effective v.env_config).1) ((try_set k raw v.unresolved).1)
  where
    env : v.unresolved ≡ none → (try_set k effective v.env_config).0 ≡ none
    env h = try_set-none k effective v.env_config (settled h)

    go :
        (ok1 ok2 : Bool)
        → IsSettled (
            (λ (p : Views × Bool). p.0)
              (if not ok1
                then (record v { env_config = (try_set k effective v.env_config).0 }, false)
                else if not ok2
                then (
                  record v {
                    env_config = (try_set k effective v.env_config).0;
                    unresolved = (try_set k raw v.unresolved).0;
                  },
                  false,
                )
                else (
                  record {
                    env_config = (try_set k effective v.env_config).0;
                    unresolved = (try_set k raw v.unresolved).0;
                    merged = (try_set k raw v.merged).0;
                  },
                  (try_set k raw v.merged).1,
                )))
    go false ok2 h = env h
    go true false h = env (none-try_set k raw v.unresolved h)
    go true true h = env (none-try_set k raw v.unresolved h)

lay_keys-IsSettled :
    (f : OverrideFrame) (ks : List Text) (v : Views) → IsSettled v → IsSettled (lay_keys f ks v)
unfolding lay_keys
lay_keys-IsSettled f [] v h = h
lay_keys-IsSettled f (k ∷ ks) v h = lay_keys-IsSettled f ks _ (replay_views-IsSettled k _ _ v h)

pub overlay-IsSettled :
    (v : Views) (fs : List OverrideFrame) → IsSettled v → IsSettled (overlay v fs)
unfolding overlay lay_frame
overlay-IsSettled v [] h = h
overlay-IsSettled v (f ∷ fs) h =
    overlay-IsSettled (lay_frame f v) fs (lay_keys-IsSettled f (sort_texts (keys f.payload)) v h)
