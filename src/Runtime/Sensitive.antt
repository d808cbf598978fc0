-- ===== src/Runtime/Sensitive.antt =====
-- config_inspect.go and config_sensitive.go: the paths whose values diagnostics hide.
use confii_go.Base.{
  contains_text, every, has_prefix, ℕ, ◌+◌, Bool, false, not, ◌&&◌, ◌||◌, Option, none, some, List,
  [], ◌∷◌, ◌++◌, if◌then◌else◌, Text, text_eq,
}
use confii_go.Base.Split.{is_empty, split}
use confii_go.Base.Sort.{sort_texts}
use confii_go.Value.{Value, Items, Fields, text, sequence, mapping, nil, cons, end, field}
use confii_go.Configmap.{dot, extend}
use confii_go.Secretref.{contains_reference}

-- `collectSecretReferenceKeys`
unfoldable mutual
  pub reference_keys : Text → Value → List Text
  reference_keys path (mapping m) = field_reference_keys path m
  reference_keys path (sequence xs) = item_reference_keys path xs
  reference_keys path (text s) =
      if not (is_empty path) && contains_reference s then path ∷ [] else []
  reference_keys path _ = []

  pub item_reference_keys : Text → Items → List Text
  item_reference_keys path nil = []
  item_reference_keys path (cons x xs) = reference_keys path x ++ item_reference_keys path xs

  pub field_reference_keys : Text → Fields → List Text
  field_reference_keys path end = []
  field_reference_keys path (field k v rest) =
      reference_keys (extend path k) v ++ field_reference_keys path rest

abbrev pub or_nil_map : Option Fields → Fields
or_nil_map none = end
or_nil_map (some m) = m

unfoldable pub sensitive_paths_from : Option Fields → List Text
sensitive_paths_from config = field_reference_keys [] (or_nil_map config)

unfoldable pub sensitive_paths_for : Option Fields → List Text → List Text
sensitive_paths_for config declared = sensitive_paths_from config ++ declared

pub data SensitivePathError : Type 0 where
  empty_path : ℕ → SensitivePathError
  surrounding_whitespace : Text → SensitivePathError
  empty_segment : Text → SensitivePathError

-- The body of the loop of `normalizeSensitivePathList`. `trim` is strings.TrimSpace.
unfoldable pub sensitive_path_fault : (Text → Text) → ℕ → Text → Option SensitivePathError
sensitive_path_fault trim index path =
    if is_empty (trim path)
    then some (empty_path index)
    else if not (text_eq (trim path) path)
    then some (surrounding_whitespace path)
    else if every (λ segment. not (is_empty segment)) (split dot path)
    then none
    else some (empty_segment path)

-- The loop, with the set of paths so far.
unfoldable pub unique_paths :
    (Text → Text) → ℕ → List Text → List Text → List Text × Option SensitivePathError
unique_paths trim index unique [] = (unique, none)
unique_paths trim index unique (path ∷ paths) = elim (sensitive_path_fault trim index path) [
  | some e ↦ ([], some e)
  | none ↦
      unique_paths trim (index + 1) (if contains_text unique path then unique else path ∷ unique)
        paths
]

-- A nil list is `none`.
unfoldable pub normalize_sensitive_path_list :
    (Text → Text) → Option (List Text) → Option (List Text) × Option SensitivePathError
normalize_sensitive_path_list trim none = (none, none)
normalize_sensitive_path_list trim (some paths) =
    let (unique, e) = unique_paths trim 0 [] paths in
    elim e [ none ↦ (some (sort_texts unique), none) | some fault ↦ (none, some fault) ]

-- `pathIsSensitive`
unfoldable pub path_is_sensitive : Text → List Text → Bool
path_is_sensitive path [] = false
path_is_sensitive path (sensitive ∷ paths) =
    let later = path_is_sensitive path paths in
    text_eq path sensitive
    || has_prefix path (sensitive ++ dot ∷ [])
    || has_prefix sensitive (path ++ dot ∷ [])
    || later
