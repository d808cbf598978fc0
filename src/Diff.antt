-- ===== src/Diff.antt =====
-- diff/differ.go: the differences of two configurations, their redaction and their counts.
-- `json.Marshal` is a parameter: a value's JSON text, empty where marshalling fails.
pub mod Redaction
pub mod Quiet
use confii_go.Base.{ℕ, ◌+◌, Bool, true, false, not, ◌||◌, Option, none, some, List, [], ◌∷◌, ◌++◌}
use confii_go.Base.{Text, text_eq, has_prefix, contains_text, if◌then◌else◌}
use confii_go.Base.Sort.{sort_texts}
use confii_go.Value.{Value, Fields, null, mapping, end, field}
use confii_go.Value.Maps.{lookup, keys, as_map}
use confii_go.Configmap.{dot, extend}

pub data DiffType : Type 0 where
  added removed modified : DiffType

-- []ConfigDiff, as a list of the fields of each difference: the key, the type, the old and the new
-- value (nil where there is none), the path and the nested differences.
pub data Diffs : Type 0 where
  none_left : Diffs
  config_diff : Text → DiffType → Value → Value → Text → Diffs → Diffs → Diffs

-- The keys of both maps, each once.
unfoldable pub distinct : List Text → List Text
distinct [] = []
distinct (k ∷ ks) = let rest = distinct ks in if contains_text ks k then rest else k ∷ rest

unfoldable pub sorted_keys : Fields → Fields → List Text
sorted_keys c1 c2 = sort_texts (distinct (keys c1 ++ keys c2))

abbrev pub value_or_nil : Option Value → Value
value_or_nil none = null
value_or_nil (some v) = v

module _ (marshal : Value → Text) where
  unfoldable pub equal : Value → Value → Bool
  equal a b = text_eq (marshal a) (marshal b)

  -- The branch for a key of both maps. `nested` is `diffMaps(m1, ·, path)`.
  unfoldable pub diff_both : Text → Text → Value → Value → (Fields → Diffs) → Diffs → Diffs
  diff_both k path v1 v2 nested later = elim (as_map v1) [
    | none ↦ if equal v1 v2 then later else config_diff k modified v1 v2 path none_left later
    | some m1 ↦ elim (as_map v2) [
      | none ↦ if equal v1 v2 then later else config_diff k modified v1 v2 path none_left later
      | some m2 ↦ elim (nested m2) [
        | none_left ↦ later
        | config_diff j t old new p inner rest ↦
            config_diff k modified v1 v2 path (config_diff j t old new p inner rest) later
      ]
    ]
  ]

  -- The loop over the sorted keys. `find` is a read of the first map, with `diffMaps` on the value.
  unfoldable pub diff_keys :
      (Text → Option (Value × (Fields → Text → Diffs))) → Fields → Text → List Text → Diffs
  diff_keys find c2 prefix [] = none_left
  diff_keys find c2 prefix (k ∷ ks) =
      let later = diff_keys find c2 prefix ks in
      let path = extend prefix k in
      elim (find k) [
        | none ↦ config_diff k added null (value_or_nil (lookup k c2)) path none_left later
        | some (v1, nested) ↦ elim (lookup k c2) [
          | none ↦ config_diff k removed v1 null path none_left later
          | some v2 ↦ diff_both k path v1 v2 (λ m2. nested m2 path) later
        ]
      ]

  -- `diffMaps` recurs on the first map.
  unfoldable mutual
    pub find_nested : Fields → Text → Option (Value × (Fields → Text → Diffs))
    find_nested end k = none
    find_nested (field j v rest) k =
        if text_eq j k then some (v, λ c2 path. diff_nested v c2 path) else find_nested rest k

    pub diff_nested : Value → Fields → Text → Diffs
    diff_nested (mapping m1) c2 path = diff_keys (λ k. find_nested m1 k) c2 path (sorted_keys m1 c2)
    diff_nested v c2 path = diff_keys (λ k. none) c2 path (sorted_keys end c2)

  unfoldable pub diff_maps : Fields → Fields → Text → Diffs
  diff_maps c1 c2 prefix = diff_keys (λ k. find_nested c1 k) c2 prefix (sorted_keys c1 c2)

  unfoldable pub diff : Fields → Fields → Diffs
  diff config1 config2 = diff_maps config1 config2 []

unfoldable pub matches_sensitive_path : Text → List Text → Bool
matches_sensitive_path path [] = false
matches_sensitive_path path (sensitive ∷ rest) =
    text_eq path sensitive
    || has_prefix path (sensitive ++ (dot ∷ []))
    || has_prefix sensitive (path ++ (dot ∷ []))
    || matches_sensitive_path path rest

-- A value that is not nil gives way to the replacement.
abbrev pub redact_value : Value → Value → Value
redact_value replacement null = null
redact_value replacement _ = replacement

unfoldable pub redact : Diffs → List Text → Value → Diffs
redact none_left paths replacement = none_left
redact (config_diff k t old new path nested rest) paths replacement =
    let hidden = matches_sensitive_path path paths in
    config_diff k t (if hidden then redact_value replacement old else old)
      (if hidden then redact_value replacement new else new) path (redact nested paths replacement)
      (redact rest paths replacement)

pub record Counts : Type 0 where
  pub total : ℕ
  pub added_count : ℕ
  pub removed_count : ℕ
  pub modified_count : ℕ

abbrev pub count_type : DiffType → Counts → Counts
count_type added s = record s { added_count = s.added_count + 1 }
count_type removed s = record s { removed_count = s.removed_count + 1 }
count_type modified s = record s { modified_count = s.modified_count + 1 }

unfoldable pub count_diffs : Diffs → Counts → Counts
count_diffs none_left s = s
count_diffs (config_diff k t old new path nested rest) s =
    count_diffs rest (count_diffs nested (count_type t (record s { total = s.total + 1 })))

unfoldable pub summary : Diffs → Counts
summary diffs =
    count_diffs diffs (record { total = 0; added_count = 0; removed_count = 0; modified_count = 0 })
