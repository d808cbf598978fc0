-- ===== src/Runtime/Scopes.antt =====
-- config_override.go: scopes of overrides, and what their frames make of the maps below them.
pub mod Settled
pub mod Payloads
pub mod Pushes
pub mod Calls
pub mod Layers
pub mod Drained
use confii_go.Base.{ℕ, ◌≡◌, Bool, true, false, Option, none, some, List, [], ◌∷◌, Text}
use confii_go.Base.Sort.{sort_texts}
use confii_go.Value.{Value, Fields}
use confii_go.Value.Maps.{lookup, keys}
use confii_go.Diff.{value_or_nil}
use confii_go.Runtime.State.{Views, OverrideFrame, Live, Settings, Attempt, made, Round, committed}
use confii_go.Runtime.Candidates.{raw_or_env}
use confii_go.Runtime.Overrides.{OverrideRequest, admit_override, override_round}
use confii_go.Runtime.Restores.{replay_views, restore_override}

-- The three maps as the operations read them: without an unresolved map, the materialized one is.
unfoldable pub settle : Views → Views
settle v = record { env_config = v.env_config; unresolved = raw_or_env v; merged = v.merged }

-- A frame's payloads laid over the maps.
unfoldable pub lay_keys : OverrideFrame → List Text → Views → Views
lay_keys f [] v = v
lay_keys f (k ∷ ks) v =
    let raw = value_or_nil (lookup k f.payload) in
    let effective : Value = elim (lookup k f.effective_payload) [ none ↦ raw | some e ↦ e ] in
    lay_keys f ks ((replay_views k raw effective v).0)

unfoldable pub lay_frame : OverrideFrame → Views → Views
lay_frame f v = lay_keys f (sort_texts (keys f.payload)) v

-- The frames laid over the maps, one after the other.
unfoldable pub overlay : Views → List OverrideFrame → Views
overlay v [] = v
overlay v (f ∷ fs) = overlay (lay_frame f v) fs

-- Calls of Override that return, and of the functions that they return, in any order.
pub data Scope (st : Settings) (c : Live) : Live → Type 0 where
  opened : Scope st c c
  pushed :
      {d e : Live} (materialize : Text → Value → Option Value) (now : ℕ) (overrides : Fields)
      (r : OverrideRequest)
      → Scope st c d
      → admit_override materialize now overrides false d ≡ made r
      → override_round st r false d d ≡ committed e
      → Scope st c e
  restored :
      {d : Live} (now frame_id : ℕ) → Scope st c d → Scope st c (restore_override st now frame_id d)
