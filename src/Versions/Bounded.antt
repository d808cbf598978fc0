-- ===== src/Versions/Bounded.antt =====
-- observe/version.go: the limit on the number of versions, kept by the operations.
use confii_go.Base.{
  ◌≡◌, refl, ◌∙◌, ap, inl, inr, ℕ, suc, ◌+◌, Bool, true, false, ◌||◌, Option, none, some, List, [],
  ◌∷◌, arith, if◌then◌else◌, Bool-cases,
}
use confii_go.Base.{Text, length, text_eq, text_eq_iff, ltb, leb, All}
use confii_go.Base.Int.{ℤ}
use confii_go.Base.Split.{is_empty}
use confii_go.Base.Sort.{sort_texts}
use confii_go.Base.Dict.{Dict, put}
use confii_go.Value.{Fields}
use confii_go.Versions.{
  Version, VersionManager, AgeEntry, age_entries, sort_entries, evict_loop, evict, limit_or,
  reconfigure, VersionError, storage, marshal_config, generate_ulid, unmarshal_snapshot,
  marshal_metadata, unmarshal_metadata, Saved, saved, unsaved, copy_metadata, store_version,
  save_version,
}
use confii_go.Versions.Retention.{
  has_id, UniqueIds, IsOther, AreDistinct, IsHeld, length-sort_entries, All-sort_entries,
  AreDistinct-sort_entries, IsBounded, IsBounded-evict_loop,
}

length-age_entries : (vs : Dict Version) → length (age_entries vs) ≡ length vs
unfolding age_entries
length-age_entries [] = refl
length-age_entries ((k, v) ∷ rest) = ap suc (length-age_entries rest)

All-IsOther-age_entries :
    (k : Text) (time : ℕ) (vs : Dict Version)
    → has_id k vs ≡ false
    → All (IsOther (record { entry_id = k; ts = time })) (age_entries vs)
unfolding age_entries has_id
All-IsOther-age_entries k time [] h = tt
All-IsOther-age_entries k time ((j, v) ∷ rest) h = (
  ground (arith, text_eq_iff j k, text_eq_iff k j),
  All-IsOther-age_entries k time rest (ground arith),
)

AreDistinct-age_entries : (vs : Dict Version) → UniqueIds vs → AreDistinct (age_entries vs)
unfolding age_entries
AreDistinct-age_entries [] h = tt
AreDistinct-age_entries ((k, v) ∷ rest) (h, u) =
    (All-IsOther-age_entries k v.timestamp rest h, AreDistinct-age_entries rest u)

All-IsHeld-cons :
    (k : Text) (v : Version) (vs : Dict Version) (es : List AgeEntry)
    → All (IsHeld vs) es
    → All (IsHeld ((k, v) ∷ vs)) es
unfolding has_id
All-IsHeld-cons k v vs [] h = tt
All-IsHeld-cons k v vs (e ∷ es) (p, h) = (ground arith, All-IsHeld-cons k v vs es h)

All-IsHeld-age_entries : (vs : Dict Version) → All (IsHeld vs) (age_entries vs)
unfolding age_entries has_id
All-IsHeld-age_entries [] = tt
All-IsHeld-age_entries ((k, v) ∷ rest) = (
  ground (arith, text_eq_iff k k),
  All-IsHeld-cons k v rest (age_entries rest) (All-IsHeld-age_entries rest),
)

-- The manager is within its limit.
abbrev pub IsKept : VersionManager → Type 0
IsKept m = IsBounded m.max_versions m.versions

evict-IsKept : (m : VersionManager) → UniqueIds m.versions → IsKept ((evict m).0)
unfolding evict
evict-IsKept m u = go (leb (length m.versions) m.max_versions) refl (
    IsBounded-evict_loop m.max_versions (sort_entries (age_entries m.versions)) m.versions
      (AreDistinct-sort_entries (age_entries m.versions) (AreDistinct-age_entries m.versions u))
      (All-sort_entries (IsHeld m.versions) (age_entries m.versions)
        (All-IsHeld-age_entries m.versions))
      (omega (arith, length-sort_entries (age_entries m.versions), length-age_entries m.versions))
      u)
  where
    left : Dict Version × List Text
    left = evict_loop m.max_versions (sort_entries (age_entries m.versions)) m.versions

    go :
        (b : Bool)
        → leb (length m.versions) m.max_versions ≡ b
        → IsBounded m.max_versions left.0
        → (λ (x : VersionManager × List Text). IsKept x.0)
            (if b
              then (m, [])
              else (record m { versions = left.0 }, if is_empty m.storage_path then [] else left.1))
    go true x y = (ground arith, u)
    go false x y = y

has_id-put :
    (j k : Text) (v : Version) (vs : Dict Version)
    → has_id j (put k v vs) ≡ (text_eq k j || has_id j vs)
unfolding has_id put
has_id-put j k v [] = refl
has_id-put j k v ((i, w) ∷ rest) =
    ground (arith, has_id-put j k v rest, text_eq_iff i k, text_eq_iff i j, text_eq_iff k j)

UniqueIds-put : (k : Text) (v : Version) (vs : Dict Version) → UniqueIds vs → UniqueIds (put k v vs)
unfolding put has_id
UniqueIds-put k v [] h = (refl, tt)
UniqueIds-put k v ((i, w) ∷ rest) (h, u) = elim (Bool-cases (text_eq i k)) [
  | inl e ↦ rw e (h, u)
  | inr e ↦ rw e (
    has_id-put i k v rest ∙ ground (arith, text_eq_iff i k, text_eq_iff k i),
    UniqueIds-put k v rest u,
  )
]

-- What an operation returns keeps the limit.
abbrev Keeps : Saved × VersionManager × List Text → Type 0
Keeps x = IsKept x.1

module _ (marshal : Option Fields → Option Text) (unmarshal : Text → Option (Option Fields))
    (persist : Text → Version → Option Text) where
  store_version-Keeps :
      (m : VersionManager) (v : Version)
      → IsKept m
      → Keeps (store_version marshal unmarshal persist m v)
  unfolding store_version
  store_version-Keeps m v h =
      go (if is_empty m.storage_path then none else persist m.storage_path v)
    where
      next : VersionManager
      next = record m { versions = put v.version_id v m.versions }

      go :
          (o : Option Text)
          → Keeps (elim o [
            | some e ↦ (unsaved (storage e), m, [])
            | none ↦ (saved v, (evict next).0, (evict next).1)
          ])
      go (some e) = h
      go none = evict-IsKept next (UniqueIds-put v.version_id v m.versions h.1)

  copy_metadata-Keeps :
      (o : Option Fields) (next : Option Fields → Saved × VersionManager × List Text)
      (fail : VersionError → Saved × VersionManager × List Text)
      → ((meta : Option Fields) → Keeps (next meta))
      → ((e : VersionError) → Keeps (fail e))
      → Keeps (copy_metadata marshal unmarshal persist o next fail)
  unfolding copy_metadata
  copy_metadata-Keeps none next fail good bad = good none
  copy_metadata-Keeps (some meta) next fail good bad = go (marshal (some meta))
    where
      read :
          (o : Option (Option Fields))
          → Keeps (elim o [ none ↦ fail unmarshal_metadata | some copy ↦ next copy ])
      read none = bad unmarshal_metadata
      read (some copy) = good copy

      go :
          (o : Option Text)
          → Keeps (elim o [
            | none ↦ fail marshal_metadata
            | some json ↦ elim (unmarshal json) [
              | none ↦ fail unmarshal_metadata
              | some copy ↦ next copy
            ]
          ])
      go none = bad marshal_metadata
      go (some json) = read (unmarshal json)

  -- The three answers on which a record depends, in the order of the calls.
  answers :
      (fail : VersionError → Saved × VersionManager × List Text)
      (next : Text → Option Fields → Saved × VersionManager × List Text)
      → ((e : VersionError) → Keeps (fail e))
      → ((id : Text) (copy : Option Fields) → Keeps (next id copy))
      → (config identifier : Option Text)
      → Keeps (elim config [
        | none ↦ fail marshal_config
        | some json ↦ elim identifier [
          | none ↦ fail generate_ulid
          | some id ↦ elim (unmarshal json) [
            | none ↦ fail unmarshal_snapshot
            | some copy ↦ next id copy
          ]
        ]
      ])
  answers fail next bad good none identifier = bad marshal_config
  answers fail next bad good (some json) none = bad generate_ulid
  answers fail next bad good (some json) (some id) = go (unmarshal json)
    where
      go :
          (o : Option (Option Fields))
          → Keeps (elim o [ none ↦ fail unmarshal_snapshot | some copy ↦ next id copy ])
      go none = bad unmarshal_snapshot
      go (some copy) = good id copy

  -- SaveVersion keeps the number of the versions in memory within the limit and their identifiers
  -- apart, whether it succeeds or fails.
  pub save_version-IsKept :
      (clock : ℕ) (identifier : Option Text) (config metadata : Option Fields)
      (sensitive : List Text) (m : VersionManager)
      → IsKept m
      → IsKept
          ((save_version marshal unmarshal persist clock identifier config metadata sensitive m).1)
  unfolding save_version
  save_version-IsKept clock identifier config metadata sensitive m h =
      answers fail (λ id copy. copy_metadata marshal unmarshal persist metadata (next id copy) fail)
        (λ e. h)
        (λ id copy.
          copy_metadata-Keeps metadata (next id copy) fail
            (λ meta. store_version-Keeps later (record_of id copy meta) h) (λ e. h))
        (marshal config) identifier
    where
      now : ℕ
      now = if ltb m.last_timestamp clock then clock else m.last_timestamp + 1

      later : VersionManager
      later = record m { last_timestamp = now }

      record_of : Text → Option Fields → Option Fields → Version
      record_of id copy meta = record {
        version_id = id;
        config = copy;
        timestamp = now;
        metadata = meta;
        version_paths = sort_texts sensitive;
      }

      fail : VersionError → Saved × VersionManager × List Text
      fail e = (unsaved e, later, [])

      next : Text → Option Fields → Option Fields → Saved × VersionManager × List Text
      next id copy meta = store_version marshal unmarshal persist later (record_of id copy meta)

-- Reconfigure brings any store whose identifiers are apart within the new limit.
pub reconfigure-IsKept :
    (path : Text) (limit : ℤ) (m : VersionManager)
    → UniqueIds m.versions
    → IsKept ((reconfigure path limit m).0)
unfolding reconfigure
reconfigure-IsKept path limit m u =
    evict-IsKept (record m { storage_path = path; max_versions = limit_or m.max_versions limit }) u
