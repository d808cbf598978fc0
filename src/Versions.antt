-- ===== src/Versions.antt =====
-- observe/version.go: the store of configuration versions, in memory and in a directory.
-- The encoder, the generator of identifiers and the directory are parameters: what writing a record
-- returns, and what reading one finds. The identifiers whose files an operation removes come back with its
-- result. A time is a number of nanoseconds. Copies are the values themselves.
pub mod Retention
pub mod Bounded
use confii_go.Base.{
  ℕ, zero, suc, ◌+◌, Bool, true, false, not, ◌&&◌, ◌||◌, Option, none, some, List, [], ◌∷◌, ◌++◌,
  ◌==◌,
}
use confii_go.Base.{Text, codes, length, text_eq, text_lt, ltb, leb, if◌then◌else◌}
use confii_go.Base.Int.{ℤ, pos, negsuc}
use confii_go.Base.Split.{is_empty}
use confii_go.Base.Sort.{sort_texts}
use confii_go.Base.Dict.{Dict, find, put}
use confii_go.Value.{Value, Fields, text, end}
use confii_go.Diff.{Diffs, diff, redact}

-- A nil map is `none`.
pub record Version : Type 0 where
  pub version_id : Text
  pub config : Option Fields
  pub timestamp : ℕ
  pub metadata : Option Fields
  pub version_paths : List Text

pub record VersionManager : Type 0 where
  pub storage_path : Text
  pub max_versions : ℕ
  pub versions : Dict Version
  pub last_timestamp : ℕ

-- A limit that is positive, or the other one.
abbrev pub limit_or : ℕ → ℤ → ℕ
limit_or other (pos zero) = other
limit_or other (pos (suc n)) = suc n
limit_or other (negsuc n) = other

unfoldable pub new_version_manager : Text → ℤ → VersionManager
new_version_manager storage_path max_versions = record {
  storage_path = storage_path;
  max_versions = limit_or 100 max_versions;
  versions = [];
  last_timestamp = 0;
}

pub record AgeEntry : Type 0 where
  pub entry_id : Text
  pub ts : ℕ

unfoldable pub age_entries : Dict Version → List AgeEntry
age_entries [] = []
age_entries ((k, v) ∷ rest) = record { entry_id = k; ts = v.timestamp } ∷ age_entries rest

-- The order of `evict`: by time, then by identifier.
abbrev pub older : AgeEntry → AgeEntry → Bool
older a b = if a.ts == b.ts then text_lt a.entry_id b.entry_id else ltb a.ts b.ts

unfoldable pub insert_entry : AgeEntry → List AgeEntry → List AgeEntry
insert_entry e [] = e ∷ []
insert_entry e (f ∷ fs) =
    let later = insert_entry e fs in if older f e then f ∷ later else e ∷ f ∷ fs

-- `sort.Slice`. No two entries have the same identifier, so the order has no ties.
unfoldable pub sort_entries : List AgeEntry → List AgeEntry
sort_entries [] = []
sort_entries (e ∷ es) = insert_entry e (sort_entries es)

-- `delete(m.versions, id)`
unfoldable pub delete_version : Text → Dict Version → Dict Version
delete_version k [] = []
delete_version k ((j, v) ∷ rest) =
    let later = delete_version k rest in if text_eq j k then later else (j, v) ∷ later

-- The loop of `evict`, on the entries from the oldest on: what is left, and the removed identifiers.
unfoldable pub evict_loop : ℕ → List AgeEntry → Dict Version → Dict Version × List Text
evict_loop limit [] vs = (vs, [])
evict_loop limit (e ∷ es) vs =
    let (left, removed) = evict_loop limit es (delete_version e.entry_id vs) in
    if ltb limit (suc (length es)) then (left, e.entry_id ∷ removed) else (vs, [])

unfoldable pub evict : VersionManager → VersionManager × List Text
evict m =
    let (left, removed) =
      evict_loop m.max_versions (sort_entries (age_entries m.versions)) m.versions in
    if leb (length m.versions) m.max_versions
    then (m, [])
    else (record m { versions = left }, if is_empty m.storage_path then [] else removed)

unfoldable pub reconfigure : Text → ℤ → VersionManager → VersionManager × List Text
reconfigure storage_path max_versions m =
    evict (record m {
      storage_path = storage_path;
      max_versions = limit_or m.max_versions max_versions;
    })

pub data VersionError : Type 0 where
  marshal_config generate_ulid unmarshal_snapshot marshal_metadata unmarshal_metadata : VersionError
  storage : Text → VersionError

pub data Saved : Type 0 where
  saved : Version → Saved
  unsaved : VersionError → Saved

module _ (marshal : Option Fields → Option Text) (unmarshal : Text → Option (Option Fields))
    (persist : Text → Version → Option Text) where
  unfoldable pub copy_metadata :
      Option Fields
      → (Option Fields → Saved × VersionManager × List Text)
      → (VersionError → Saved × VersionManager × List Text)
      → Saved × VersionManager × List Text
  copy_metadata none next fail = next none
  copy_metadata (some meta) next fail = elim (marshal (some meta)) [
    | none ↦ fail marshal_metadata
    | some json ↦ elim (unmarshal json) [ none ↦ fail unmarshal_metadata | some copy ↦ next copy ]
  ]

  -- The end of the call, from the finished record on.
  unfoldable pub store_version : VersionManager → Version → Saved × VersionManager × List Text
  store_version m v =
      let failure : Option Text =
        if is_empty m.storage_path then none else persist m.storage_path v in
      elim failure [
        | some e ↦ (unsaved (storage e), m, [])
        | none ↦
            let (m', removed) = evict (record m { versions = put v.version_id v m.versions }) in
            (saved v, m', removed)
      ]

  -- `clock` is time.Now, and `identifier` what ulid.New returns.
  unfoldable pub save_version :
      ℕ
      → Option Text
      → Option Fields
      → Option Fields
      → List Text
      → VersionManager
      → Saved × VersionManager × List Text
  save_version clock identifier config metadata sensitive m =
      let now = if ltb m.last_timestamp clock then clock else m.last_timestamp + 1 in
      let m1 : VersionManager = record m { last_timestamp = now } in
      let fail : VersionError → Saved × VersionManager × List Text = λ e. (unsaved e, m1, []) in
      elim (marshal config) [
        | none ↦ fail marshal_config
        | some json ↦ elim identifier [
          | none ↦ fail generate_ulid
          | some id ↦ elim (unmarshal json) [
            | none ↦ fail unmarshal_snapshot
            | some copy ↦
                copy_metadata metadata
                  (λ meta. store_version m1 (record {
                    version_id = id;
                    config = copy;
                    timestamp = now;
                    metadata = meta;
                    version_paths = sort_texts sensitive;
                  }))
                  fail
          ]
        ]
      ]

module _ (valid_id : Text → Bool) (read_record : Text → Text → Option Version) where
  -- `GetVersion`
  unfoldable pub get_version : VersionManager → Text → Option Version
  get_version m wanted = elim (find wanted m.versions) [
    | some v ↦ some v
    | none ↦
        if is_empty m.storage_path
        then none
        else if valid_id wanted
        then read_record m.storage_path wanted
        else none
  ]

  -- The loop of `scanDiskLocked` over the names of the directory, without the extension .json.
  unfoldable pub scan_loop : Text → List Text → Dict Version → Dict Version
  scan_loop storage_path [] vs = vs
  scan_loop storage_path (id ∷ ids) vs = scan_loop storage_path ids (
      if not (valid_id id) then vs else elim (find id vs) [
        | some v ↦ vs
        | none ↦ elim (read_record storage_path id) [
          | none ↦ vs
          | some v ↦ if text_eq v.version_id id then put id v vs else vs
        ]
      ])

  -- `names` is what reading the directory finds, `none` an error.
  unfoldable pub scan_disk : Option (List Text) → VersionManager → VersionManager
  scan_disk names m = elim names [
    | none ↦ m
    | some ids ↦
        if is_empty m.storage_path
        then m
        else record m { versions = scan_loop m.storage_path ids m.versions }
  ]

  unfoldable pub newer : Version → Version → Bool
  newer a b =
      if a.timestamp == b.timestamp
      then text_lt b.version_id a.version_id
      else ltb b.timestamp a.timestamp

  unfoldable pub insert_version : Version → List Version → List Version
  insert_version v [] = v ∷ []
  insert_version v (w ∷ ws) =
      let later = insert_version v ws in if newer w v then w ∷ later else v ∷ w ∷ ws

  unfoldable pub sort_versions : Dict Version → List Version
  sort_versions [] = []
  sort_versions ((k, v) ∷ rest) = insert_version v (sort_versions rest)

  unfoldable pub list_versions : Option (List Text) → VersionManager → List Version × VersionManager
  list_versions names m = let m' = scan_disk names m in (sort_versions m'.versions, m')

  unfoldable pub latest_version :
      Option (List Text) → VersionManager → Option Version × VersionManager
  latest_version names m =
      let (vs, m') = list_versions names m in (elim vs [ [] ↦ none | v ∷ rest ↦ some v ], m')

  pub data Compared : Type 0 where
    differences : Diffs → Compared
    not_found : Text → Compared

  abbrev fields_of : Option Fields → Fields
  fields_of none = end
  fields_of (some m) = m

  module _ (marshal_value : Value → Text) where
    -- `DiffVersions`
    unfoldable pub diff_versions : VersionManager → Text → Text → Compared
    diff_versions m id1 id2 = elim (get_version m id1) [
      | none ↦ not_found id1
      | some v1 ↦ elim (get_version m id2) [
        | none ↦ not_found id2
        | some v2 ↦ differences (
            redact (diff marshal_value (fields_of v1.config) (fields_of v2.config))
              (v1.version_paths ++ v2.version_paths)
              (text (codes "[REDACTED: secret-backed value]")))
      ]
    ]
