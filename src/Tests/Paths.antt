-- ===== src/Tests/Paths.antt =====
-- Reads and writes by path, and deep merges.
use confii_go.Base.{◌≡◌, refl, false, none, some, [], ◌∷◌, ◌++◌, Text, codes}
use confii_go.Base.Int.{pos}
use confii_go.Value.{Value, null, integer, mapping, end, field}
use confii_go.Value.Maps.{as_map, lookup, insert}
use confii_go.Base.Split.{split, join}
use confii_go.Base.Sort.{sort_texts}
use confii_go.Base.{text_eq, text_lt, has_prefix}
use confii_go.Configmap.{
  set_parts, assign, invalid_segment, build_branch, invalid_path, nil_map, keys, has, under_prefix,
  collect, walk, trim_dot, get, set, parse, path_conflict, dot, PathError,
}
use confii_go.Configmap.Reads.{get-set, get-set_other, parts_prefix}
use confii_go.Configmap.Writes.{set_atomic, set_conflict}
use confii_go.Tests.Data.{base, moved}

abbrev port : Text
port = codes "db.port"

set-port : set (some base) port (integer (pos 6543)) ≡ (some moved, none)
unfolding set parse split set_parts assign lookup text_eq insert
set-port = refl

get-set_example : get (some moved) port ≡ some (integer (pos 6543))
get-set_example = get-set base moved port (integer (pos 6543)) set-port

get-set_other_example :
    get (set (some base) port null).0 (codes "db.host") ≡ get (some base) (codes "db.host")
unfolding parse split parts_prefix text_eq
get-set_other_example =
    get-set_other base port null (codes "db.host") (codes "db" ∷ codes "port" ∷ [])
      (codes "db" ∷ codes "host" ∷ []) refl refl refl refl

abbrev conflict : PathError
conflict = record { path = codes "name.first"; segment = codes "name"; err = path_conflict }

set_name : (set (some base) (codes "name.first") null).1 ≡ some conflict
unfolding set parse split set_parts assign lookup text_eq insert join
set_name = refl

set_atomic_example : (set (some base) (codes "name.first") null).0 ≡ some base
set_atomic_example = set_atomic (some base) (codes "name.first") null conflict set_name

set_conflict_example :
    (w : Value) × (below : Text) × (get (some base) (codes "name") ≡ some w)
    × (as_map w ≡ none)
    × (codes "name.first" ≡ codes "name" ++ (dot ∷ below))
set_conflict_example = set_conflict base (codes "name.first") null conflict set_name refl

-- A path with an empty part, a nil map, and a path through missing maps.
set_refusals :
    ((set (some base) (codes "db..port") null).1
      ≡ some (record { path = codes "db..port"; segment = codes "db."; err = invalid_path }))
    × ((set none (codes "a") null).1
        ≡ some (record { path = codes "a"; segment = []; err = nil_map }))
    × (set (some end) (codes "a.b") null
        ≡ (some (field (codes "a") (mapping (field (codes "b") null end)) end), none))
unfolding set parse split set_parts assign lookup text_eq insert join invalid_segment build_branch
set_refusals = (refl, refl, refl)

-- A key that holds a dot is listed and cannot be read back.
dotted_key :
    (keys (some (field (codes "a.b") null end)) [] ≡ codes "a.b" ∷ [])
    × (has (some (field (codes "a.b") null end)) (codes "a.b") ≡ false)
unfolding keys under_prefix collect sort_texts has get walk parse split lookup text_eq
dotted_key = (refl, refl)

listed :
    (keys (some base) [] ≡ codes "db.host" ∷ codes "db.port" ∷ codes "name" ∷ [])
    × (keys (some base) (codes "db.") ≡ codes "db.host" ∷ codes "db.port" ∷ [])
unfolding keys under_prefix collect sort_texts text_lt parse split trim_dot has_prefix join
listed = (refl, refl)
