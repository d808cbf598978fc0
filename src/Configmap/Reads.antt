-- ===== src/Configmap/Reads.antt =====
-- What `Get` returns after `Set`.
use mathlib.Core.Option.{some-ne-none}
use confii_go.Base.{
  sym, ◌≡◌, refl, ◌∙◌, ap, Bool, true, false, ◌&&◌, none, some, List, [], ◌∷◌, ◌++◌, arith,
}
use confii_go.Base.{
  ◌≢◌, Text, text_eq, text_eq_iff, text_eq_refl, Bool-cases, Option-cases, inl, inr,
}
use confii_go.Value.{Value, Fields, mapping}
use confii_go.Value.Maps.{lookup, insert, as_map}
use confii_go.Value.Laws.{lookup-insert, lookup-insert_self}
use confii_go.Configmap.{parse, walk, get, build_branch, assign, set}
use confii_go.Configmap.Steps.{assign_missing, assign_blocked, assign_nested}
use confii_go.Configmap.Parse.{parse-cases, get_of_parts, set_of_parts, set_refused}

-- The parts of the first path begin the second.
unfoldable pub parts_prefix : List Text → List Text → Bool
parts_prefix [] qs = true
parts_prefix (p ∷ ps) [] = false
parts_prefix (p ∷ ps) (q ∷ qs) = text_eq p q && parts_prefix ps qs

-- A read of at least one part sees a value only through `as_map`.
pub walk_of_as_map :
    (v : Value) (m : Fields) (qs : List Text)
    → as_map v ≡ some m
    → qs ≢ []
    → walk (mapping m) qs ≡ walk v qs
unfolding walk
walk_of_as_map v m [] h k = absurd (k refl)
walk_of_as_map v m (q ∷ qs) h k = rw h

ne_nil_of_parts_prefix : (qs ps : List Text) → parts_prefix qs ps ≡ false → qs ≢ []
unfolding parts_prefix
ne_nil_of_parts_prefix [] ps h = cc
ne_nil_of_parts_prefix (q ∷ qs) ps h = λ e. cc

walk-build_branch :
    (part : Text) (rest : List Text) (value : Value)
    → walk (mapping (build_branch part rest value)) (part ∷ rest) ≡ some value
unfolding walk build_branch lookup
walk-build_branch part [] value = rw text_eq_refl
walk-build_branch part (next ∷ rest) value = rw text_eq_refl (walk-build_branch next rest value)

walk-insert_ne :
    (part q : Text) (qs : List Text) (value : Value) (m : Fields)
    → text_eq part q ≡ false
    → walk (mapping (insert part value m)) (q ∷ qs) ≡ walk (mapping m) (q ∷ qs)
unfolding walk
walk-insert_ne part q qs value m h = rw (lookup-insert, h)

walk-insert_self :
    (part : Text) (qs : List Text) (value : Value) (m : Fields)
    → walk (mapping (insert part value m)) (part ∷ qs) ≡ walk value qs
unfolding walk
walk-insert_self part qs value m = rw lookup-insert_self

walk-build_branch_other :
    (part : Text) (rest qs : List Text) (value : Value)
    → parts_prefix (part ∷ rest) qs ≡ false
    → parts_prefix qs (part ∷ rest) ≡ false
    → walk (mapping (build_branch part rest value)) qs ≡ none
unfolding walk build_branch lookup parts_prefix
walk-build_branch_other part rest [] value h k = cc
walk-build_branch_other part [] (q ∷ qs) value h k = ground arith
walk-build_branch_other part (next ∷ rest) (q ∷ qs) value h k =
    ground
      (arith, walk-build_branch_other next rest qs value, text_eq_iff part q, text_eq_iff q part)

walk-assign :
    (path : Text) (before : List Text) (part : Text) (rest : List Text) (m : Fields) (value : Value)
    → (assign path before part rest m value).1 ≡ none
    → walk (mapping (assign path before part rest m value).0) (part ∷ rest) ≡ some value
walk-assign path before part [] m value h = unfold assign walk in walk-insert_self part [] value m
walk-assign path before part (following ∷ rest) m value h = elim (Option-cases (lookup part m)) [
  | inl e ↦
      rw (assign_missing path before part following rest m value e)
        (walk-insert_self part (following ∷ rest) _ m ∙ walk-build_branch following rest value)
  | inr (next, e) ↦ elim (Option-cases (as_map next)) [
    | inl f ↦
        let step = assign_blocked path before part following rest m value next e f in
        absurd (some-ne-none _ (sym (ap (λ r. r.1) step) ∙ h))
    | inr (nested, f) ↦
        let step = assign_nested path before part following rest m value next nested e f in
        let fits : (assign path (before ++ part ∷ []) following rest nested value).1 ≡ none =
          sym (ap (λ r. r.1) step) ∙ h in
        rw step (
          walk-insert_self part (following ∷ rest) _ m
          ∙ walk-assign path (before ++ part ∷ []) following rest nested value fits)
  ]
]

pub walk_missing :
    (part : Text) (qs : List Text) (m : Fields)
    → lookup part m ≡ none
    → walk (mapping m) (part ∷ qs) ≡ none
unfolding walk
walk_missing part qs m e = rw e

pub walk_present :
    (part : Text) (qs : List Text) (m : Fields) (next : Value)
    → lookup part m ≡ some next
    → walk (mapping m) (part ∷ qs) ≡ walk next qs
unfolding walk
walk_present part qs m next e = rw e

walk-insert_if :
    (part q : Text) (qs : List Text) (value : Value) (m : Fields)
    → (text_eq part q ≡ true → walk value qs ≡ walk (mapping m) (part ∷ qs))
    → walk (mapping (insert part value m)) (q ∷ qs) ≡ walk (mapping m) (q ∷ qs)
walk-insert_if part q qs value m h = elim (Bool-cases (text_eq part q)) [
  | inl same ↦ rw (← (text_eq_iff part q).0 same) (walk-insert_self part qs value m ∙ h same)
  | inr differ ↦ walk-insert_ne part q qs value m differ
]

parts_prefix_nil : (ps : List Text) → parts_prefix [] ps ≡ true
unfolding parts_prefix
parts_prefix_nil ps = refl

parts_prefix_tails :
    (p q : Text) (ps qs : List Text)
    → text_eq p q ≡ true
    → parts_prefix (p ∷ ps) (q ∷ qs) ≡ false
    → parts_prefix (q ∷ qs) (p ∷ ps) ≡ false
    → (parts_prefix ps qs ≡ false) × (parts_prefix qs ps ≡ false)
unfolding parts_prefix
parts_prefix_tails p q ps qs e h k = ground (arith, text_eq_iff p q, text_eq_iff q p)

walk-assign_other :
    (path : Text) (before : List Text) (part : Text) (rest : List Text) (m : Fields) (value : Value)
    (qs : List Text)
    → parts_prefix (part ∷ rest) qs ≡ false
    → parts_prefix qs (part ∷ rest) ≡ false
    → walk (mapping (assign path before part rest m value).0) qs ≡ walk (mapping m) qs
walk-assign_other path before part rest m value [] h k = cc (parts_prefix_nil (part ∷ rest))
walk-assign_other path before part [] m value (q ∷ qs) h k =
    unfold assign in walk-insert_ne part q qs value m (unfold parts_prefix in ground arith)
walk-assign_other path before part (following ∷ rest) m value (q ∷ qs) h k =
    elim (Option-cases (lookup part m)) [
      | inl e ↦ rw (assign_missing path before part following rest m value e) (
          walk-insert_if part q qs _ m λ same.
            let (h', k') = parts_prefix_tails part q (following ∷ rest) qs same h k in
            walk-build_branch_other following rest qs value h' k' ∙ sym (walk_missing part qs m e))
      | inr (next, e) ↦ elim (Option-cases (as_map next)) [
        | inl f ↦ rw (assign_blocked path before part following rest m value next e f)
        | inr (nested, f) ↦
            rw (assign_nested path before part following rest m value next nested e f) (
              walk-insert_if part q qs _ m λ same.
                let (h', k') = parts_prefix_tails part q (following ∷ rest) qs same h k in
                walk-assign_other path (before ++ part ∷ []) following rest nested value qs h' k'
                ∙ walk_of_as_map next nested qs f (ne_nil_of_parts_prefix qs _ k')
                ∙ sym (walk_present part qs m next e))
      ]
    ]

-- A write that reports no error is read back at its path.
pub get-set :
    (m m' : Fields) (path : Text) (value : Value)
    → set (some m) path value ≡ (some m', none)
    → get (some m') path ≡ some value
get-set m m' path value h = elim (parse-cases path) [
  | inl (parts, e) ↦ cc (set_refused m path parts value e)
  | inr (p, ps, e) ↦
      let step = set_of_parts m path p ps value e in
      let fits : (assign path [] p ps m value).1 ≡ none = cc in
      let same : (assign path [] p ps m value).0 ≡ m' = cc in
      get_of_parts m' path (p ∷ ps) e ∙ rw (← same) (walk-assign path [] p ps m value fits)
]

-- A write, refused or not, leaves the reads of every other valid path alone that is neither above
-- nor below the written path.
pub get-set_other :
    (m : Fields) (path : Text) (value : Value) (other : Text) (ps qs : List Text)
    → parse path ≡ (ps, true)
    → parse other ≡ (qs, true)
    → parts_prefix ps qs ≡ false
    → parts_prefix qs ps ≡ false
    → get (set (some m) path value).0 other ≡ get (some m) other
get-set_other m path value other [] qs e f h k = cc (parts_prefix_nil qs)
get-set_other m path value other (p ∷ ps) qs e f h k = rw (set_of_parts m path p ps value e) (
    get_of_parts _ other qs f
    ∙ walk-assign_other path [] p ps m value qs h k
    ∙ sym (get_of_parts m other qs f))
