-- ===== src/Tests/Overrides.antt =====
-- Overrides of a small live configuration, taken off in the order of their pushes.
use confii_go.Base.{◌≡◌, refl, ℕ, true, false, Option, none, some, [], ◌∷◌, Text, codes, text_eq}
use confii_go.Value.{Value, Fields, end, field, null}
use confii_go.Runtime.State.{Live, Attempt, made, refused, Round, committed, again, stopped}
use confii_go.Runtime.Overrides.{OverrideRequest, admit_override, override_round}
use confii_go.Runtime.Restores.{restore_override}
use confii_go.Runtime.Scopes.{settle, overlay, Scope, opened, pushed, restored}
use confii_go.Runtime.Scopes.Drained.{Scope-overlay, Scope-drained}
use confii_go.Tests.Data.{host}
use confii_go.Tests.Mutations.{settings, start}

abbrev materialize : Text → Value → Option Value
materialize key value = some value

abbrev first_payload : Fields
first_payload = field (codes "a") null end

abbrev second_payload : Fields
second_payload = field (codes "b") host end

abbrev call : Fields → OverrideRequest
call payload = record { raw_overrides = payload; effective_overrides = payload; override_now = 4 }

abbrev live_after : Live → Round Live → Live
live_after c (committed d) = d
live_after c again = c
live_after c (stopped e) = c

abbrev once : Live
once = live_after start (override_round settings (call first_payload) false start start)

abbrev twice : Live
twice = live_after once (override_round settings (call second_payload) false once once)

once_made : admit_override materialize 4 first_payload false start ≡ made (call first_payload)
unfolding confii_go.Runtime.Overrides.admit_override confii_go.Runtime.State.check_open
    confii_go.Runtime.Overrides.materialize_overrides confii_go.Base.Sort.sort_texts
    confii_go.Value.Maps.keys confii_go.Value.Maps.insert confii_go.Value.Maps.lookup
    confii_go.Base.text_eq confii_go.Base.Sort.insert_text confii_go.Base.text_lt
once_made = refl

once_pushed : override_round settings (call first_payload) false start start ≡ committed once
unfolding confii_go.Runtime.State.check_open confii_go.Base.Sort.sort_texts
    confii_go.Value.Maps.keys confii_go.Value.Maps.insert confii_go.Value.Maps.lookup
    confii_go.Base.text_eq confii_go.Runtime.Overrides.override_round
    confii_go.Runtime.Overrides.set_overrides confii_go.Runtime.Candidates.set_candidate
    confii_go.Runtime.Candidates.write_views confii_go.Runtime.Candidates.write_view
    confii_go.Configmap.set confii_go.Configmap.parse confii_go.Base.Split.split
    confii_go.Runtime.Candidates.snapshot_candidate confii_go.Base.Dict.find confii_go.Base.Dict.put
    confii_go.Base.Sort.insert_text confii_go.Base.text_lt confii_go.Configmap.assign
    confii_go.Configmap.set_parts confii_go.Runtime.Candidates.commit_candidate
    confii_go.Runtime.Candidates.publish_candidate confii_go.Runtime.Overrides.capture_base
    confii_go.Runtime.Overrides.commit_override confii_go.Runtime.Overrides.push_override
    confii_go.Runtime.Sensitive.field_reference_keys confii_go.Runtime.Sensitive.sensitive_paths_for
    confii_go.Secretref.contains_reference confii_go.Secretref.expect
    confii_go.Secretref.match_reference confii_go.Sourcetrack.snapshot
    confii_go.Sourcetrack.track_value
once_pushed = refl

twice_made : admit_override materialize 4 second_payload false once ≡ made (call second_payload)
unfolding confii_go.Runtime.Overrides.admit_override confii_go.Runtime.State.check_open
    confii_go.Runtime.Overrides.materialize_overrides confii_go.Base.Sort.sort_texts
    confii_go.Value.Maps.keys confii_go.Value.Maps.insert confii_go.Value.Maps.lookup
    confii_go.Base.text_eq confii_go.Runtime.Overrides.override_round
    confii_go.Runtime.Overrides.set_overrides confii_go.Runtime.Candidates.set_candidate
    confii_go.Runtime.Candidates.write_views confii_go.Runtime.Candidates.write_view
    confii_go.Configmap.set confii_go.Configmap.parse confii_go.Base.Split.split
    confii_go.Runtime.Candidates.snapshot_candidate confii_go.Base.Dict.find confii_go.Base.Dict.put
    confii_go.Base.Sort.insert_text confii_go.Base.text_lt confii_go.Configmap.assign
    confii_go.Configmap.set_parts confii_go.Runtime.Candidates.commit_candidate
    confii_go.Runtime.Candidates.publish_candidate confii_go.Runtime.Overrides.capture_base
    confii_go.Runtime.Overrides.commit_override confii_go.Runtime.Overrides.push_override
    confii_go.Runtime.Sensitive.field_reference_keys confii_go.Runtime.Sensitive.sensitive_paths_for
    confii_go.Secretref.contains_reference confii_go.Secretref.expect
    confii_go.Secretref.match_reference confii_go.Sourcetrack.snapshot
    confii_go.Sourcetrack.track_value
twice_made = refl

twice_pushed : override_round settings (call second_payload) false once once ≡ committed twice
unfolding confii_go.Runtime.State.check_open confii_go.Base.Sort.sort_texts
    confii_go.Value.Maps.keys confii_go.Value.Maps.insert confii_go.Value.Maps.lookup
    confii_go.Base.text_eq confii_go.Runtime.Overrides.override_round
    confii_go.Runtime.Overrides.set_overrides confii_go.Runtime.Candidates.set_candidate
    confii_go.Runtime.Candidates.write_views confii_go.Runtime.Candidates.write_view
    confii_go.Configmap.set confii_go.Configmap.parse confii_go.Base.Split.split
    confii_go.Runtime.Candidates.snapshot_candidate confii_go.Base.Dict.find confii_go.Base.Dict.put
    confii_go.Base.Sort.insert_text confii_go.Base.text_lt confii_go.Configmap.assign
    confii_go.Configmap.set_parts confii_go.Runtime.Candidates.commit_candidate
    confii_go.Runtime.Candidates.publish_candidate confii_go.Runtime.Overrides.capture_base
    confii_go.Runtime.Overrides.commit_override confii_go.Runtime.Overrides.push_override
    confii_go.Runtime.Sensitive.field_reference_keys confii_go.Runtime.Sensitive.sensitive_paths_for
    confii_go.Secretref.contains_reference confii_go.Secretref.expect
    confii_go.Secretref.match_reference confii_go.Sourcetrack.snapshot
    confii_go.Sourcetrack.track_value
twice_pushed = refl

twice-Scope : Scope settings start twice
twice-Scope =
    pushed materialize 4 second_payload (call second_payload)
      (pushed materialize 4 first_payload (call first_payload) opened once_made once_pushed)
      twice_made twice_pushed

-- The first frame is off, and the second is on.
abbrev second_left : Live
second_left = restore_override settings 8 1 twice

Scope-overlay_example :
    settle second_left.views ≡ overlay (settle start.views) second_left.override_stack
Scope-overlay_example = Scope-overlay settings refl (restored 8 1 twice-Scope)

abbrev none_left : Live
none_left = restore_override settings 9 2 second_left

drained : none_left.override_stack ≡ []
unfolding confii_go.Runtime.State.check_open confii_go.Base.Sort.sort_texts
    confii_go.Value.Maps.keys confii_go.Value.Maps.insert confii_go.Value.Maps.lookup
    confii_go.Base.text_eq confii_go.Runtime.Overrides.override_round
    confii_go.Runtime.Overrides.set_overrides confii_go.Runtime.Candidates.set_candidate
    confii_go.Runtime.Candidates.write_views confii_go.Runtime.Candidates.write_view
    confii_go.Configmap.set confii_go.Configmap.parse confii_go.Base.Split.split
    confii_go.Runtime.Candidates.snapshot_candidate confii_go.Base.Dict.find confii_go.Base.Dict.put
    confii_go.Base.Sort.insert_text confii_go.Base.text_lt confii_go.Configmap.assign
    confii_go.Configmap.set_parts confii_go.Runtime.Candidates.commit_candidate
    confii_go.Runtime.Candidates.publish_candidate confii_go.Runtime.Overrides.capture_base
    confii_go.Runtime.Overrides.commit_override confii_go.Runtime.Overrides.push_override
    confii_go.Runtime.Sensitive.field_reference_keys confii_go.Runtime.Sensitive.sensitive_paths_for
    confii_go.Secretref.contains_reference confii_go.Secretref.expect
    confii_go.Secretref.match_reference confii_go.Sourcetrack.snapshot
    confii_go.Sourcetrack.track_value confii_go.Runtime.Restores.on_stack
    confii_go.Runtime.Restores.reinstate_base confii_go.Runtime.Restores.replay_stack
    confii_go.Runtime.Restores.without_frame confii_go.Runtime.Restores.restore_override
drained = refl

Scope-drained_example :
    (settle none_left.views ≡ settle start.views)
    × (none_left.sensitive_paths ≡ start.sensitive_paths)
    × (none_left.frozen ≡ start.frozen)
Scope-drained_example =
    Scope-drained settings refl (restored 9 2 (restored 8 1 twice-Scope)) drained
