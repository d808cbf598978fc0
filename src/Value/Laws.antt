-- ===== src/Value/Laws.antt =====
-- The laws of map reads and writes.
use confii_go.Base.{◌≡◌, refl, ap, none, some, arith}
use confii_go.Base.{Text, text_eq, text_eq_iff, text_eq_refl, if◌then◌else◌, Bool-cases, inl, inr}
use confii_go.Value.{Value, Fields, end, field, mapping, nil_mapping}
use confii_go.Value.Maps.{lookup, insert, delete, as_map}
use confii_go.Value.Maps.{UniqueKeys, IsProper, IsProperMap}

pub lookup-insert :
    (j k : Text) (v : Value) (m : Fields)
    → lookup j (insert k v m) ≡ (if text_eq k j then some v else lookup j m)
unfolding lookup insert
lookup-insert j k v end = refl
lookup-insert j k v (field i w m) =
    ground (arith, text_eq_iff k j, text_eq_iff i k, text_eq_iff i j, lookup-insert j k v m)

pub lookup-insert_self : (k : Text) (v : Value) (m : Fields) → lookup k (insert k v m) ≡ some v
lookup-insert_self k v m = simp (lookup-insert, text_eq_refl)

pub lookup-delete :
    (j k : Text) (m : Fields) → lookup j (delete k m) ≡ (if text_eq k j then none else lookup j m)
unfolding lookup delete
lookup-delete j k end = ground arith
lookup-delete j k (field i w m) =
    ground (arith, text_eq_iff k j, text_eq_iff i k, text_eq_iff i j, lookup-delete j k m)

-- Writing the value that a key has changes nothing.
pub insert_self : (k : Text) (v : Value) (m : Fields) → lookup k m ≡ some v → insert k v m ≡ m
unfolding lookup insert
insert_self k v end h = cc
insert_self k v (field i w m) h = elim (Bool-cases (text_eq i k)) [
  | inl e ↦ ground arith
  | inr e ↦ rw e (ap (field i w) (insert_self k v m (ground arith)))
]

pub insert-UniqueKeys :
    (k : Text) (v : Value) (m : Fields) → UniqueKeys m → UniqueKeys (insert k v m)
unfolding insert lookup
insert-UniqueKeys k v end h = ground arith
insert-UniqueKeys k v (field i w m) h =
    ground
      (arith, insert-UniqueKeys k v m h.1, lookup-insert i k v m, text_eq_iff i k, text_eq_iff k i)

pub insert-IsProperMap :
    (k : Text) (v : Value) (m : Fields) → IsProper v → IsProperMap m → IsProperMap (insert k v m)
unfolding insert lookup
insert-IsProperMap k v end p h = ground arith
insert-IsProperMap k v (field i w m) p h =
    ground (
      arith,
      insert-IsProperMap k v m p h.2,
      lookup-insert i k v m,
      text_eq_iff i k,
      text_eq_iff k i,
    )

pub lookup-IsProper :
    (k : Text) (m : Fields) (v : Value) → IsProperMap m → lookup k m ≡ some v → IsProper v
unfolding lookup
lookup-IsProper k end v p h = cc
lookup-IsProper k (field i w m) v p h = elim (Bool-cases (text_eq i k)) [
  | inl e ↦ let q : w ≡ v = ground arith in rw (← q) p.1
  | inr e ↦ lookup-IsProper k m v p.2 (ground arith)
]

pub as_map-IsProper : (v : Value) (m : Fields) → as_map v ≡ some m → IsProper v → IsProperMap m
as_map-IsProper (mapping o) m h p = let q : o ≡ m = ground arith in rw (← q) p
as_map-IsProper nil_mapping m h p = let q : end ≡ m = ground arith in rw (← q) tt
as_map-IsProper _ m h p = cc

pub IsProperMap-UniqueKeys : (m : Fields) → IsProperMap m → UniqueKeys m
IsProperMap-UniqueKeys end h = tt
IsProperMap-UniqueKeys (field k v m) h = (h.0, IsProperMap-UniqueKeys m h.2)
