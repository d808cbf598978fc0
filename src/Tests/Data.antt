-- ===== src/Tests/Data.antt =====
-- The configurations on which the tests run.
use confii_go.Base.{codes, refl, text_eq}
use confii_go.Base.Int.{pos}
use confii_go.Value.{
  Value, Items, Fields, null, integer, text, sequence, mapping, nil, cons, end, field,
}
use confii_go.Value.Maps.{IsProperMap, lookup}

abbrev pub host : Value
host = text (codes "localhost")

abbrev pub database : Fields
database = field (codes "host") host (field (codes "port") (integer (pos 5432)) end)

abbrev pub base : Fields
base = field (codes "db") (mapping database) (field (codes "name") (text (codes "app")) end)

abbrev pub overlay : Fields
overlay =
    field (codes "db") (mapping (field (codes "port") (integer (pos 6543)) end))
      (field (codes "debug") null end)

-- `base` with the port of `overlay`.
abbrev pub moved : Fields
moved =
    field (codes "db")
      (mapping (field (codes "host") host (field (codes "port") (integer (pos 6543)) end)))
      (field (codes "name") (text (codes "app")) end)

abbrev pub one_item : Items
one_item = cons null nil

abbrev pub listing : Fields
listing = field (codes "tags") (sequence one_item) end

pub base-IsProperMap : IsProperMap base
unfolding lookup text_eq
base-IsProperMap = (refl, (refl, tt, (refl, tt, tt)), (refl, tt, tt))

pub overlay-IsProperMap : IsProperMap overlay
unfolding lookup text_eq
overlay-IsProperMap = (refl, (refl, tt, tt), (refl, tt, tt))
