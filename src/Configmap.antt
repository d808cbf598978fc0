-- ===== src/Configmap.antt =====
-- configmap/path.go: values addressed by dotted paths.
-- A map and what it holds are a tree, so the cycles that `Keys` skips cannot occur; `Set` writes in
-- place, and the model returns the written map, in the error case too. `none` is a nil map.
pub mod Steps
pub mod Parse
pub mod Reads
pub mod Writes
use confii_go.Base.{ℕ, Bool, true, false, not, Option, none, some, List, [], ◌∷◌, ◌++◌, ◌>>=◌}
use confii_go.Base.{Text, ◌==◌, has_prefix, every, keep, if◌then◌else◌}
use confii_go.Base.Split.{split, join, is_empty}
use confii_go.Base.Sort.{sort_texts}
use confii_go.Value.{Value, Fields, mapping, nil_mapping, end, field}
use confii_go.Value.Maps.{lookup, insert, as_map}

pub data PathErrorKind : Type 0 where
  invalid_path nil_map path_conflict : PathErrorKind

pub record PathError : Type 0 where
  pub path : Text
  pub segment : Text
  pub err : PathErrorKind

abbrev pub dot : ℕ
dot = b'.'

unfoldable pub parse : Text → List Text × Bool
parse [] = ([], false)
parse (c ∷ path) = let parts = split dot (c ∷ path) in (parts, every (λ p. not (is_empty p)) parts)

invalid_from : List Text → List Text → Text
invalid_from before [] = []
invalid_from before (part ∷ rest) =
    let later = invalid_from (before ++ part ∷ []) rest in
    if is_empty part then join dot (before ++ part ∷ []) else later

unfoldable pub invalid_segment : List Text → Text
unfolding invalid_from
invalid_segment parts = invalid_from [] parts

-- The loop of `Get` over the parts.
unfoldable pub walk : Value → List Text → Option Value
walk current [] = some current
walk current (part ∷ rest) = do fields ← as_map current; next ← lookup part fields; walk next rest

unfoldable pub get : Option Fields → Text → Option Value
get none path = none
get (some fields) path =
    let (parts, ok) = parse path in if ok then walk (mapping fields) parts else none

unfoldable pub has : Option Fields → Text → Bool
has fields path = elim (get fields path) [ none ↦ false | some v ↦ true ]

-- The loop over `parts[:len(parts)-1]` and the write of the last part.
unfoldable pub build_branch : Text → List Text → Value → Fields
build_branch part [] value = field part value end
build_branch part (next ∷ rest) value = field part (mapping (build_branch next rest value)) end

-- The loop of `Set`. The parts that are done come back in the segment of an error.
unfoldable pub assign :
    Text → List Text → Text → List Text → Fields → Value → Fields × Option PathError
assign path before part [] current value = (insert part value current, none)
assign path before part (following ∷ rest) current value = elim (lookup part current) [
  | none ↦ (insert part (mapping (build_branch following rest value)) current, none)
  | some next ↦ elim (as_map next) [
    | none ↦ (
      current,
      some (record { path = path; segment = join dot (before ++ part ∷ []); err = path_conflict }),
    )
    | some nested ↦
        let (nested', e) = assign path (before ++ part ∷ []) following rest nested value in
        (insert part (mapping nested') current, e)
  ]
]

unfoldable pub set_parts : Text → List Text → Fields → Value → Fields × Option PathError
set_parts path [] current value = (current, none)
set_parts path (part ∷ rest) current value = assign path [] part rest current value

unfoldable pub set : Option Fields → Text → Value → Option Fields × Option PathError
set fields path value =
    let (parts, ok) = parse path in
    if ok
    then elim fields [
      | none ↦ (none, some (record { path = path; segment = []; err = nil_map }))
      | some current ↦ let (written, e) = set_parts path parts current value in (some written, e)
    ]
    else (
      fields,
      some (record { path = path; segment = invalid_segment parts; err = invalid_path }),
    )

-- The path of a key below a prefix.
abbrev pub extend : Text → Text → Text
extend [] key = key
extend (c ∷ prefix) key = (c ∷ prefix) ++ (dot ∷ key)

unfoldable mutual
  pub collect : Text → Fields → List Text
  collect prefix end = []
  collect prefix (field key value rest) =
      collect_value (extend prefix key) value ++ collect prefix rest

  pub collect_value : Text → Value → List Text
  collect_value path (mapping nested) = collect path nested
  collect_value path nil_mapping = []
  collect_value path _ = path ∷ []

unfoldable pub trim_dot : Text → Text
trim_dot [] = []
trim_dot (c ∷ []) = elim (c == dot) [ true ↦ [] | false ↦ c ∷ [] ]
trim_dot (c ∷ d ∷ s) = c ∷ trim_dot (d ∷ s)

-- The filter of `Keys` by its optional prefix, which `Keys` passes on to the filter.
unfoldable pub under_prefix : Text → List Text → List Text
under_prefix [] all = all
under_prefix (c ∷ prefix) all =
    let (parts, ok) = parse (trim_dot (c ∷ prefix)) in
    if ok then keep (λ key. has_prefix key (join dot parts ++ dot ∷ [])) all else []

unfoldable pub keys : Option Fields → Text → List Text
keys none prefix = []
keys (some fields) prefix = sort_texts (under_prefix prefix (collect [] fields))
