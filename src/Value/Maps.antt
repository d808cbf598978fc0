-- ===== src/Value/Maps.antt =====
-- Go's operations on `map[string]any`: `m[k]`, `m[k] = v`, `delete(m, k)`, `len(m)`, `maps.Copy`.
use confii_go.Base.{ℕ, suc, ◌≡◌, Option, none, some, List, [], ◌∷◌}
use confii_go.Base.{Text, text_eq, if◌then◌else◌}
use confii_go.Value.{Value, Items, Fields, mapping, nil_mapping, sequence, nil, cons, end, field}

-- `v.(map[string]any)`. A nil map reads as an empty one.
abbrev pub as_map : Value → Option Fields
as_map (mapping m) = some m
as_map nil_mapping = some end
as_map _ = none

-- `v.([]any)`
abbrev pub as_slice : Value → Option Items
as_slice (sequence xs) = some xs
as_slice _ = none

unfoldable pub lookup : Text → Fields → Option Value
lookup k end = none
lookup k (field j v rest) = if text_eq j k then some v else lookup k rest

unfoldable pub insert : Text → Value → Fields → Fields
insert k v end = field k v end
insert k v (field j w rest) = if text_eq j k then field j v rest else field j w (insert k v rest)

unfoldable pub delete : Text → Fields → Fields
delete k end = end
delete k (field j v rest) =
    let others = delete k rest in if text_eq j k then others else field j v others

unfoldable pub keys : Fields → List Text
keys end = []
keys (field k v rest) = k ∷ keys rest

unfoldable pub count_fields : Fields → ℕ
count_fields end = 0
count_fields (field k v rest) = suc (count_fields rest)

-- `maps.Copy(result, from)`
unfoldable pub copy_fields : Fields → Fields → Fields
copy_fields result end = result
copy_fields result (field k v rest) = copy_fields (insert k v result) rest

unfoldable pub append_items : Items → Items → Items
append_items nil ys = ys
append_items (cons x xs) ys = cons x (append_items xs ys)

-- No key stands twice at this level, as in every Go map.
abbrev pub UniqueKeys : Fields → Type 0
UniqueKeys end = Unit
UniqueKeys (field k v rest) = (lookup k rest ≡ none) × UniqueKeys rest

-- No key stands twice, at any depth.
abbrev mutual
  pub IsProper : Value → Type 0
  IsProper (mapping m) = IsProperMap m
  IsProper (sequence xs) = IsProperItems xs
  IsProper _ = Unit

  pub IsProperItems : Items → Type 0
  IsProperItems nil = Unit
  IsProperItems (cons x xs) = IsProper x × IsProperItems xs

  pub IsProperMap : Fields → Type 0
  IsProperMap end = Unit
  IsProperMap (field k v rest) = (lookup k rest ≡ none) × IsProper v × IsProperMap rest
