-- ===== src/Runtime/Restores.antt =====
-- config_override.go: the function that Override returns.
use confii_go.Base.{
  ℕ, Bool, true, false, not, ◌||◌, Option, none, some, List, [], ◌∷◌, ◌==◌, if◌then◌else◌, Text,
  codes,
}
use confii_go.Base.Int.{pos}
use confii_go.Base.Sort.{sort_texts}
use confii_go.Value.{Value, Fields}
use confii_go.Value.Maps.{lookup, keys}
use confii_go.Configmap.{set}
use confii_go.Diff.{value_or_nil}
use confii_go.Sourcetrack.{Tracker, track_value, restore}
use confii_go.Runtime.State.{Views, OverrideFrame, OverrideBase, Live, Settings, bump_revision}
use confii_go.Runtime.Sensitive.{sensitive_paths_for}
use confii_go.Runtime.Candidates.{raw_or_env}

-- What a replay rebuilds.
pub record Replay : Type 0 where
  pub replayed : Views
  pub replay_tracker : Tracker

-- `SetNested` on a map, and whether it succeeds.
unfoldable pub try_set : Text → Value → Option Fields → Option Fields × Bool
try_set k v m = let (written, e) = set m k v in (written, elim e [ none ↦ true | some err ↦ false ])

-- A failed write skips the rest of the key; the writes before it stay.
unfoldable pub replay_views : Text → Value → Value → Views → Views × Bool
replay_views k v effective old =
    let (env', ok1) = try_set k effective old.env_config in
    let (unresolved', ok2) = try_set k v old.unresolved in
    let (merged', ok3) = try_set k v old.merged in
    if not ok1
    then (record old { env_config = env' }, false)
    else if not ok2
    then (record old { env_config = env'; unresolved = unresolved' }, false)
    else (record { env_config = env'; unresolved = unresolved'; merged = merged' }, ok3)

unfoldable pub replay_key : Settings → ℕ → OverrideFrame → Text → Replay → Replay
replay_key st now f k r =
    let v = value_or_nil (lookup k f.payload) in
    let effective : Value = elim (lookup k f.effective_payload) [ none ↦ v | some e ↦ e ] in
    let (views', ok) = replay_views k v effective r.replayed in
    record {
      replayed = views';
      replay_tracker =
          if ok
          then track_value k v (codes "override") (codes "override") st.env (pos 0) now
              r.replay_tracker
          else r.replay_tracker;
    }

unfoldable pub replay_keys : Settings → ℕ → OverrideFrame → List Text → Replay → Replay
replay_keys st now f [] r = r
replay_keys st now f (k ∷ ks) r = replay_keys st now f ks (replay_key st now f k r)

unfoldable pub replay_frames : Settings → ℕ → List OverrideFrame → Replay → Replay
replay_frames st now [] r = r
replay_frames st now (f ∷ fs) r =
    replay_frames st now fs (replay_keys st now f (sort_texts (keys f.payload)) r)

unfoldable pub without_frame : ℕ → List OverrideFrame → List OverrideFrame
without_frame frame_id [] = []
without_frame frame_id (f ∷ fs) =
    let later = without_frame frame_id fs in if f.id == frame_id then later else f ∷ later

unfoldable pub on_stack : ℕ → List OverrideFrame → Bool
on_stack frame_id [] = false
on_stack frame_id (f ∷ fs) = let later = on_stack frame_id fs in f.id == frame_id || later

-- The base of no override.
abbrev pub no_base : OverrideBase
no_base = record {
  base_views = record { env_config = none; unresolved = none; merged = none };
  base_tracker = [];
  base_sensitive = [];
  base_frozen = false;
}

-- The branch of the drained stack.
unfoldable pub reinstate_base : Live → Live
reinstate_base c = record c {
  views = c.override_base.base_views;
  tracker = restore c.override_base.base_tracker c.tracker;
  sensitive_paths = c.override_base.base_sensitive;
  frozen = c.override_base.base_frozen;
  override_stack = [];
  override_base = no_base;
}

unfoldable pub start_replay : Live → Replay
start_replay c = record {
  replayed = record {
    env_config = c.override_base.base_views.env_config;
    unresolved = raw_or_env c.override_base.base_views;
    merged = c.override_base.base_views.merged;
  };
  replay_tracker = restore c.override_base.base_tracker c.tracker;
}

-- The branch of the frames that are left.
unfoldable pub replay_stack : Settings → ℕ → List OverrideFrame → Live → Live
replay_stack st now stack c =
    let r = replay_frames st now stack (start_replay c) in
    record c {
      views = r.replayed;
      tracker = r.replay_tracker;
      sensitive_paths = sensitive_paths_for r.replayed.unresolved st.declared_sensitive;
      frozen = false;
      override_stack = stack;
    }

-- The function that Override returns for the frame. A frame that is off the stack is not applied.
unfoldable pub restore_override : Settings → ℕ → ℕ → Live → Live
restore_override st now frame_id c =
    let rebuilt : Live = elim (without_frame frame_id c.override_stack) [
      | [] ↦ reinstate_base c
      | f ∷ fs ↦ replay_stack st now (f ∷ fs) c
    ] in
    if c.closed || not (on_stack frame_id c.override_stack)
    then c
    else record rebuilt { has_model = false; revision = bump_revision c.revision }
