-- ===== src/Tests/Mutations.antt =====
-- Mutations of a small live configuration.
use confii_go.Base.{
  ◌≡◌, ◌≢◌, ◌↔◌, contains_text, refl, true, false, none, some, [], ◌∷◌, codes, text_eq, arith,
}
use confii_go.Value.{Fields, end, field}
use confii_go.Base.Int.{pos}
use confii_go.Sourcetrack.{track_value}
use confii_go.Runtime.State.{Live, Settings, check_mutable, committed}
use confii_go.Runtime.Candidates.{
  snapshot_candidate, write_view, write_views, set_candidate, publish_candidate, commit_candidate,
}
use confii_go.Runtime.Sensitive.{sensitive_paths_from, field_reference_keys, sensitive_paths_for}
use confii_go.Runtime.Atomic.{next, here, restores}
use confii_go.Runtime.Serial.{set_round_serial}
use confii_go.Runtime.Ends.{set_loop_ends}
use confii_go.Runtime.Marked.{IsHidden}
use confii_go.Runtime.Kept.{set_round-IsHidden}
use confii_go.Secretref.{expect, match_reference, contains_reference}
use confii_go.Configmap.{parse, assign, set_parts, set}
use confii_go.Base.Split.{split}
use confii_go.Base.Dict.{find, put}
use confii_go.Value.Maps.{insert}
use confii_go.Runtime.Sets.{SetRequest, begin_set, commit_set, set_round, Meeting, set_loop}
use confii_go.Runtime.Restores.{no_base, on_stack, restore_override}
use confii_go.Tests.Data.{host}

abbrev pub settings : Settings
settings = record {
  env = codes "prod";
  declared_sensitive = codes "token" ∷ [];
  validate = λ config. none;
}

abbrev small : Fields
small = field (codes "a") host end

abbrev pub start : Live
start = record {
  views = record { env_config = some small; unresolved = some small; merged = some small };
  tracker = record { sources = []; debug_mode = false };
  sensitive_paths = codes "a" ∷ [];
  frozen = false;
  closed = false;
  revision = 5;
  has_model = true;
  override_stack = [];
  override_id_counter = 0;
  override_base = no_base;
}

abbrev pub request : SetRequest
request = record { key = codes "b"; raw = host; effective = host; allow_override = true; now = 3 }

abbrev grown : Fields
grown = field (codes "a") host (field (codes "b") host end)

-- `start` after the request.
abbrev done : Live
done = record {
  views = record { env_config = some grown; unresolved = some grown; merged = some grown };
  tracker = record {
    sources =
        (
          codes "b",
          record {
            key = codes "b";
            value = host;
            source_file = codes "runtime";
            loader_type = codes "runtime";
            line_number = pos 0;
            environment = codes "prod";
            override_count = 0;
            history = [];
            timestamp = 3;
          },
        )
        ∷ [];
    debug_mode = false;
  };
  sensitive_paths = codes "token" ∷ [];
  frozen = false;
  closed = false;
  revision = 6;
  has_model = false;
  override_stack = [];
  override_id_counter = 0;
  override_base = no_base;
}

set_done : set_round settings request false start start ≡ committed done
unfolding set_round begin_set check_mutable snapshot_candidate set_candidate write_views write_view
    set parse split set_parts assign commit_set commit_candidate publish_candidate insert
    track_value find put text_eq sensitive_paths_for field_reference_keys contains_reference
    match_reference expect sensitive_paths_from
set_done = refl

-- After the function that Override returns, for a frame that is off the stack.
abbrev later : Live
later = restore_override settings 0 7 start

set_round_serial_example : set_round settings request false later later ≡ committed done
unfolding restore_override on_stack
set_round_serial_example =
    set_round_serial settings request false 1 done (next here (restores settings 0 7 start))
      (omega arith) (omega arith) set_done

-- The write of another call comes between the two sections of the first round.
abbrev disturbed : Meeting
disturbed = record { is_canceled = false; at_read = start; at_write = done }

abbrev calm : Meeting
calm = record { is_canceled = false; at_read = done; at_write = done }

set_loop_ends_example : set_loop settings request (disturbed ∷ calm ∷ []) ≢ none
set_loop_ends_example = set_loop_ends settings request (disturbed ∷ []) [] calm refl

set_round-IsHidden_example :
    (contains_text done.sensitive_paths (codes "token") ≡ true)
    ↔ IsHidden done.views.unresolved settings.declared_sensitive (codes "token")
set_round-IsHidden_example =
    set_round-IsHidden settings request false start start done (codes "token") set_done
