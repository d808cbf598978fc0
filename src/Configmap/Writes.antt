-- ===== src/Configmap/Writes.antt =====
-- What `Set` refuses, and what a refused write leaves.
use mathlib.Core.Option.{none-ne-some, some-injective}
use confii_go.Base.{
  every_of_append, ◌⊎◌, sym, ◌≡◌, ◌≢◌, refl, ◌∙◌, ap, true, Option, none, some, List, [], ◌∷◌, ◌++◌,
  arith,
}
use confii_go.Base.{Text, append_assoc, Option-cases, inl, inr}
use confii_go.Base.Split.{join-append, join}
use confii_go.Value.{Value, Fields, mapping, nil_mapping, end}
use confii_go.Value.Maps.{lookup, as_map, IsProper, IsProperMap}
use confii_go.Value.Laws.{insert_self, insert-IsProperMap, lookup-IsProper, as_map-IsProper}
use confii_go.Configmap.{PathError, dot, path_conflict, parse, walk, get, build_branch, assign, set}
use confii_go.Configmap.Steps.{assign_missing, assign_blocked, assign_nested}
use confii_go.Configmap.Reads.{walk_present, walk_of_as_map}
use confii_go.Configmap.Parse.{
  parse-cases, parse_accepted, parse-join, get_of_parts, set_of_parts, set_refused,
}

-- A nil map has no key, so the write below it never fails.
assign_nil :
    (path : Text) (before : List Text) (part : Text) (rest : List Text) (value : Value)
    → (assign path before part rest end value).1 ≡ none
unfolding assign lookup
assign_nil path before part [] value = refl
assign_nil path before part (following ∷ rest) value = refl

as_map-cases : (v : Value) (m : Fields) → as_map v ≡ some m → (v ≡ mapping m) ⊎ (m ≡ end)
as_map-cases (mapping o) m h = inl (ap mapping (some-injective o m h))
as_map-cases nil_mapping m h = inr (sym (some-injective end m h))
as_map-cases _ m h = cc

assign_atomic :
    (path : Text) (before : List Text) (part : Text) (rest : List Text) (m : Fields) (value : Value)
    (e : PathError)
    → (assign path before part rest m value).1 ≡ some e
    → (assign path before part rest m value).0 ≡ m
assign_atomic path before part [] m value e h = absurd (none-ne-some e (unfold assign in h))
assign_atomic path before part (following ∷ rest) m value e h =
    elim (Option-cases (lookup part m)) [
      | inl x ↦ cc (assign_missing path before part following rest m value x)
      | inr (next, x) ↦ elim (Option-cases (as_map next)) [
        | inl f ↦ cc (assign_blocked path before part following rest m value next x f)
        | inr (nested, f) ↦
            let step = assign_nested path before part following rest m value next nested x f in
            let failed : (assign path (before ++ part ∷ []) following rest nested value).1
                ≡ some e =
              sym (ap (λ r. r.1) step) ∙ h in
            let kept =
              assign_atomic path (before ++ part ∷ []) following rest nested value e failed in
            elim (as_map-cases next nested f) [
              | inl same ↦ rw step (rw kept (insert_self part (mapping nested) m (cc)))
              | inr empty ↦ cc (assign_nil path (before ++ part ∷ []) following rest value)
            ]
      ]
    ]

-- A write that is refused changes nothing.
pub set_atomic :
    (m : Option Fields) (path : Text) (value : Value) (e : PathError)
    → (set m path value).1 ≡ some e
    → (set m path value).0 ≡ m
set_atomic none path value e h = unfold set in ground arith
set_atomic (some m) path value e h = elim (parse-cases path) [
  | inl (parts, x) ↦ cc (set_refused m path parts value x)
  | inr (p, ps, x) ↦
      let step = set_of_parts m path p ps value x in
      let failed : (assign path [] p ps m value).1 ≡ some e = cc in
      cc (assign_atomic path [] p ps m value e failed)
]

build_branch-IsProperMap :
    (part : Text) (rest : List Text) (value : Value)
    → IsProper value
    → IsProperMap (build_branch part rest value)
unfolding build_branch lookup
build_branch-IsProperMap part [] value v = (refl, v, tt)
build_branch-IsProperMap part (next ∷ rest) value v =
    (refl, build_branch-IsProperMap next rest value v, tt)

assign-IsProperMap :
    (path : Text) (before : List Text) (part : Text) (rest : List Text) (m : Fields) (value : Value)
    → IsProper value
    → IsProperMap m
    → IsProperMap (assign path before part rest m value).0
assign-IsProperMap path before part [] m value v h =
    unfold assign in insert-IsProperMap part value m v h
assign-IsProperMap path before part (following ∷ rest) m value v h =
    elim (Option-cases (lookup part m)) [
      | inl x ↦
          rw (assign_missing path before part following rest m value x)
            (insert-IsProperMap part _ m (build_branch-IsProperMap following rest value v) h)
      | inr (next, x) ↦ elim (Option-cases (as_map next)) [
        | inl f ↦ rw (assign_blocked path before part following rest m value next x f) h
        | inr (nested, f) ↦
            let proper = as_map-IsProper next nested f (lookup-IsProper part m next h x) in
            rw (assign_nested path before part following rest m value next nested x f) (
              insert-IsProperMap part _ m
                (assign-IsProperMap path (before ++ part ∷ []) following rest nested value v proper)
                h)
      ]
    ]

-- A write, refused or not, keeps the keys of every map unique, if those of the map and of the
-- written value are.
pub set-IsProperMap :
    (m m' : Fields) (path : Text) (value : Value)
    → IsProper value
    → IsProperMap m
    → (set (some m) path value).0 ≡ some m'
    → IsProperMap m'
set-IsProperMap m m' path value v h written = elim (parse-cases path) [
  | inl (parts, x) ↦ let same : m ≡ m' = cc (set_refused m path parts value x) in rw (← same) h
  | inr (p, ps, x) ↦
      let same : (assign path [] p ps m value).0 ≡ m' = cc (set_of_parts m path p ps value x) in
      rw (← same) (assign-IsProperMap path [] p ps m value v h)
]

-- The first `above` parts lead to a value that is no map, and more parts follow.
abbrev Blocked : List Text → List Text → Fields → PathError → Type 0
Blocked before parts m e =
    (above : List Text) × (below : List Text) × (w : Value) × (e.segment
      ≡ join dot (before ++ above))
    × (parts ≡ above ++ below)
    × (above ≢ [])
    × (below ≢ [])
    × (walk (mapping m) above ≡ some w)
    × (as_map w ≡ none)

assign-Blocked :
    (path : Text) (before : List Text) (part : Text) (rest : List Text) (m : Fields) (value : Value)
    (e : PathError)
    → (assign path before part rest m value).1 ≡ some e
    → Blocked before (part ∷ rest) m e
assign-Blocked path before part [] m value e h = absurd (none-ne-some e (unfold assign in h))
assign-Blocked path before part (following ∷ rest) m value e h =
    elim (Option-cases (lookup part m)) [
      | inl x ↦ cc (assign_missing path before part following rest m value x)
      | inr (next, x) ↦ elim (Option-cases (as_map next)) [
        | inl f ↦
            let segment : join dot (before ++ part ∷ []) ≡ e.segment =
              cc (assign_blocked path before part following rest m value next x f) in
            (
              part ∷ [],
              following ∷ rest,
              next,
              sym segment,
              refl,
              λ z. cc,
              λ z. cc,
              unfold walk in walk_present part [] m next x,
              f,
            )
        | inr (nested, f) ↦
            let step = assign_nested path before part following rest m value next nested x f in
            let failed : (assign path (before ++ part ∷ []) following rest nested value).1
                ≡ some e =
              cc in
            let (above, below, w, segment, parts, some_above, some_below, leads, stops) =
              assign-Blocked path (before ++ part ∷ []) following rest nested value e failed in
            (
              part ∷ above,
              below,
              w,
              segment ∙ ap (join dot) (append_assoc before (part ∷ []) above),
              ap (λ r. part ∷ r) parts,
              λ z. cc,
              some_below,
              walk_present part above m next x
                  ∙ sym (walk_of_as_map next nested above f some_above)
                  ∙ leads,
              stops,
            )
      ]
    ]

Blocked-get :
    (m : Fields) (path p : Text) (ps : List Text) (e : PathError)
    → parse path ≡ (p ∷ ps, true)
    → Blocked [] (p ∷ ps) m e
    → (w : Value) × (below : Text) × (get (some m) e.segment ≡ some w)
      × (as_map w ≡ none)
      × (path ≡ e.segment ++ (dot ∷ below))
Blocked-get m path p ps e x
      (above, below, w, segment, parts, some_above, some_below, leads, stops) =
    let (_, joined, free, full) = parse_accepted path (p ∷ ps) x in
    let parsed =
      parse-join above some_above (every_of_append _ _ above below parts full)
        (every_of_append _ _ above below parts free) in
    (
      w,
      join dot below,
      rw segment (get_of_parts m _ above parsed ∙ leads),
      stops,
      sym joined
          ∙ ap (join dot) parts
          ∙ join-append dot above below some_above some_below
          ∙ ap (λ s. s ++ (dot ∷ join dot below)) (sym segment),
    )

-- A write that is refused with a conflict names a strict ancestor of the path, at which a value
-- stands that is no map.
pub set_conflict :
    (m : Fields) (path : Text) (value : Value) (e : PathError)
    → (set (some m) path value).1 ≡ some e
    → e.err ≡ path_conflict
    → (w : Value) × (below : Text) × (get (some m) e.segment ≡ some w)
      × (as_map w ≡ none)
      × (path ≡ e.segment ++ (dot ∷ below))
set_conflict m path value e h kind = elim (parse-cases path) [
  | inl (parts, x) ↦ cc (set_refused m path parts value x)
  | inr (p, ps, x) ↦
      Blocked-get m path p ps e x
        (assign-Blocked path [] p ps m value e (cc (set_of_parts m path p ps value x)))
]
