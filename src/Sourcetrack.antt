-- ===== src/Sourcetrack.antt =====
-- sourcetrack/tracker.go: which source each value comes from, and what it overrode.
-- The locks are left out, since each operation holds one for its whole run. The map holds no nil
-- record, since no operation writes one. Copies are the records themselves. `time.Now` is the
-- argument `now`.
pub mod Origins
pub mod History
pub mod Counts
pub mod Files
pub mod Changes
use confii_go.Base.{ℕ, ◌+◌, Bool, true, false, ◌||◌, Option, none, some, List, [], ◌∷◌, ◌++◌}
use confii_go.Base.{Text, text_eq, has_prefix, length, ltb, if◌then◌else◌}
use confii_go.Base.Int.{ℤ, pos, negsuc}
use confii_go.Base.Dict.{Dict, find, put}
use confii_go.Value.{
  Value, Fields, null, boolean, integer, float, text, sequence, mapping, nil_mapping, end, field,
}
use confii_go.Value.Equality.{deep_equal}
use confii_go.Configmap.{dot, extend}
use confii_go.Diff.{matches_sensitive_path}

pub record OverrideEntry : Type 0 where
  pub value : Value
  pub source : Text
  pub loader_type : Text

pub record SourceInfo : Type 0 where
  pub key : Text
  pub value : Value
  pub source_file : Text
  pub loader_type : Text
  pub line_number : ℤ
  pub environment : Text
  pub override_count : ℕ
  pub history : List OverrideEntry
  pub timestamp : ℕ

pub record Tracker : Type 0 where
  pub sources : Dict SourceInfo
  pub debug_mode : Bool

unfoldable pub new_tracker : Bool → Tracker
new_tracker debug_mode = record { sources = []; debug_mode = debug_mode }

-- `line > 0`
abbrev is_positive : ℤ → Bool
is_positive (pos n) = ltb 0 n
is_positive (negsuc n) = false

-- A new origin of a recorded value.
unfoldable pub move_origin : SourceInfo → Text → Text → ℤ → ℕ → SourceInfo
move_origin existing source_file loader_type line now = record existing {
  source_file = source_file;
  loader_type = loader_type;
  line_number = if is_positive line then line else existing.line_number;
  timestamp = now;
}

-- The branch of an override, up to the new value.
unfoldable pub override : Bool → SourceInfo → Value → SourceInfo
override debug_mode existing value = record existing {
  override_count = existing.override_count + 1;
  history =
      if debug_mode
      then existing.history
        ++ (record {
          value = existing.value;
          source = existing.source_file;
          loader_type = existing.loader_type;
        }
            ∷ [])
      else existing.history;
  value = value;
}

unfoldable pub track_value : Text → Value → Text → Text → Text → ℤ → ℕ → Tracker → Tracker
track_value key value source_file loader_type environment line now t = elim (find key t.sources) [
  | none ↦ record t {
    sources =
        put key
          (record {
            key = key;
            value = value;
            source_file = source_file;
            loader_type = loader_type;
            line_number = line;
            environment = environment;
            override_count = 0;
            history = [];
            timestamp = now;
          })
          t.sources;
  }
  | some existing ↦ record t {
    sources =
        put key
          (move_origin
            (if deep_equal existing.value value
              then existing
              else override t.debug_mode existing value)
            source_file loader_type line now)
          t.sources;
  }
]

-- `positions` is the map of lines, which gives 0 for a key that it lacks.
module _ (source_file loader_type environment : Text) (positions : Text → ℤ) (now : Text → ℕ) where
  unfoldable mutual
    pub track_config : Fields → Text → Tracker → Tracker
    track_config end prefix t = t
    track_config (field k v rest) prefix t =
        track_config rest prefix (track_entry (extend prefix k) v t)

    pub track_entry : Text → Value → Tracker → Tracker
    track_entry path (mapping m) t = track_config m path t
    track_entry path nil_mapping t = t
    track_entry path v t =
        track_value path v source_file loader_type environment (positions path) (now path) t

-- The history of a redacted record. The test of a key is the one of diff/differ.go.
unfoldable pub redact_history : Value → List OverrideEntry → List OverrideEntry
redact_history replacement [] = []
redact_history replacement (h ∷ hs) =
    record h { value = replacement } ∷ redact_history replacement hs

unfoldable pub redact_sources : List Text → Value → Dict SourceInfo → Dict SourceInfo
redact_sources paths replacement [] = []
redact_sources paths replacement ((k, info) ∷ rest) =
    (
      k,
      if matches_sensitive_path k paths
          then record info {
            value = replacement;
            history = redact_history replacement info.history;
          }
          else info,
    )
    ∷ redact_sources paths replacement rest

unfoldable pub redact_values : List Text → Value → Tracker → Tracker
redact_values paths replacement t = record t {
  sources = redact_sources paths replacement t.sources;
}

abbrev pub Snapshot : Type 0
Snapshot = Dict SourceInfo

unfoldable pub snapshot : Tracker → Snapshot
snapshot t = t.sources

unfoldable pub restore : Snapshot → Tracker → Tracker
restore s t = record t { sources = s }

unfoldable pub clone : Tracker → Tracker
unfolding new_tracker restore snapshot
clone t = restore (snapshot t) (new_tracker t.debug_mode)

unfoldable pub get_source_info : Text → Tracker → Option SourceInfo
get_source_info key t = find key t.sources

unfoldable pub get_override_history : Text → Tracker → List OverrideEntry
get_override_history key t = elim (find key t.sources) [ none ↦ [] | some info ↦ info.history ]

-- `strings.Contains(s, pattern)`
unfoldable pub contains_part : Text → Text → Bool
contains_part [] pattern = has_prefix [] pattern
contains_part (c ∷ s) pattern = has_prefix (c ∷ s) pattern || contains_part s pattern

unfoldable pub keys_from : Text → Dict SourceInfo → List Text
keys_from pattern [] = []
keys_from pattern ((k, info) ∷ rest) =
    let later = keys_from pattern rest in
    if contains_part info.source_file pattern then k ∷ later else later

unfoldable pub find_keys_from_source : Text → Tracker → List Text
find_keys_from_source pattern t = keys_from pattern t.sources

unfoldable pub conflicts_of : Dict SourceInfo → Dict SourceInfo
conflicts_of [] = []
conflicts_of ((k, info) ∷ rest) =
    let later = conflicts_of rest in if ltb 0 info.override_count then (k, info) ∷ later else later

unfoldable pub get_conflicts : Tracker → Dict SourceInfo
get_conflicts t = conflicts_of t.sources

-- `counts[k]++`
unfoldable pub bump : Text → Dict ℕ → Dict ℕ
bump k counts = put k (elim (find k counts) [ none ↦ 1 | some n ↦ n + 1 ]) counts

pub record Statistics : Type 0 where
  pub total_keys : ℕ
  pub source_counts : Dict ℕ
  pub loader_counts : Dict ℕ
  pub total_overrides : ℕ

unfoldable pub count_sources : Dict SourceInfo → Statistics → Statistics
count_sources [] s = s
count_sources ((k, info) ∷ rest) s = count_sources rest (record s {
  source_counts = bump info.source_file s.source_counts;
  loader_counts = bump info.loader_type s.loader_counts;
  total_overrides = s.total_overrides + info.override_count;
})

unfoldable pub get_source_statistics : Tracker → Statistics
get_source_statistics t = count_sources t.sources (record {
  total_keys = length t.sources;
  source_counts = [];
  loader_counts = [];
  total_overrides = 0;
})
