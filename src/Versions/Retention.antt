-- ===== src/Versions/Retention.antt =====
-- observe/version.go: how many versions the store holds.
use confii_go.Base.{
  ◌≡◌, refl, ◌∙◌, ap, inl, inr, ℕ, suc, ◌≤◌, Bool, true, false, ◌||◌, List, [], ◌∷◌, arith,
  if◌then◌else◌, Bool-cases,
}
use confii_go.Base.{Text, length, text_eq, text_eq_iff, ltb, All}
use confii_go.Base.Dict.{Dict}
use confii_go.Versions.{
  Version, AgeEntry, insert_entry, sort_entries, older, delete_version, evict_loop,
}

unfoldable pub has_id : Text → Dict Version → Bool
has_id k [] = false
has_id k ((j, v) ∷ rest) = text_eq j k || has_id k rest

-- No identifier stands twice, as in every Go map.
abbrev pub UniqueIds : Dict Version → Type 0
UniqueIds [] = Unit
UniqueIds ((k, v) ∷ rest) = (has_id k rest ≡ false) × UniqueIds rest

-- The entry has another identifier.
abbrev pub IsOther : AgeEntry → AgeEntry → Type 0
IsOther e f = text_eq e.entry_id f.entry_id ≡ false

abbrev pub AreDistinct : List AgeEntry → Type 0
AreDistinct [] = Unit
AreDistinct (e ∷ es) = All (IsOther e) es × AreDistinct es

abbrev pub IsHeld : Dict Version → AgeEntry → Type 0
IsHeld vs e = has_id e.entry_id vs ≡ true

length-insert_entry :
    (e : AgeEntry) (es : List AgeEntry) → length (insert_entry e es) ≡ suc (length es)
unfolding insert_entry
length-insert_entry e [] = refl
length-insert_entry e (f ∷ fs) = go (older f e) (length-insert_entry e fs)
  where
    go :
        (b : Bool)
        → length (insert_entry e fs) ≡ suc (length fs)
        → length (if b then f ∷ insert_entry e fs else e ∷ f ∷ fs) ≡ suc (suc (length fs))
    go true h = ap suc h
    go false h = refl

All-insert_entry {ℓ} :
    (P : AgeEntry → Type ℓ) (e : AgeEntry) (es : List AgeEntry)
    → P e
    → All P es
    → All P (insert_entry e es)
unfolding insert_entry
All-insert_entry P e [] p h = (p, tt)
All-insert_entry P e (f ∷ fs) p (q, h) = go (older f e) (All-insert_entry P e fs p h)
  where
    go :
        (b : Bool)
        → All P (insert_entry e fs)
        → All P (if b then f ∷ insert_entry e fs else e ∷ f ∷ fs)
    go true x = (q, x)
    go false x = (p, (q, h))

IsOther-sym : (e f : AgeEntry) → IsOther e f → IsOther f e
IsOther-sym e f h =
    ground (arith, text_eq_iff e.entry_id f.entry_id, text_eq_iff f.entry_id e.entry_id)

AreDistinct-insert_entry :
    (e : AgeEntry) (es : List AgeEntry)
    → All (IsOther e) es
    → AreDistinct es
    → AreDistinct (insert_entry e es)
unfolding insert_entry
AreDistinct-insert_entry e [] o d = (tt, tt)
AreDistinct-insert_entry e (f ∷ fs) (o, os) (g, d) =
    go (older f e) (All-insert_entry (IsOther f) e fs (IsOther-sym e f o) g)
      (AreDistinct-insert_entry e fs os d)
  where
    go :
        (b : Bool)
        → All (IsOther f) (insert_entry e fs)
        → AreDistinct (insert_entry e fs)
        → AreDistinct (if b then f ∷ insert_entry e fs else e ∷ f ∷ fs)
    go true x y = (x, y)
    go false x y = ((o, os), (g, d))

pub length-sort_entries : (es : List AgeEntry) → length (sort_entries es) ≡ length es
unfolding sort_entries
length-sort_entries [] = refl
length-sort_entries (e ∷ es) =
    length-insert_entry e (sort_entries es) ∙ ap suc (length-sort_entries es)

pub All-sort_entries {ℓ} :
    (P : AgeEntry → Type ℓ) (es : List AgeEntry) → All P es → All P (sort_entries es)
unfolding sort_entries
All-sort_entries P [] h = tt
All-sort_entries P (e ∷ es) (p, h) =
    All-insert_entry P e (sort_entries es) p (All-sort_entries P es h)

pub AreDistinct-sort_entries : (es : List AgeEntry) → AreDistinct es → AreDistinct (sort_entries es)
unfolding sort_entries
AreDistinct-sort_entries [] h = tt
AreDistinct-sort_entries (e ∷ es) (o, d) =
    AreDistinct-insert_entry e (sort_entries es) (All-sort_entries (IsOther e) es o)
      (AreDistinct-sort_entries es d)

has_id-delete_version :
    (j k : Text) (vs : Dict Version)
    → text_eq k j ≡ false
    → has_id j (delete_version k vs) ≡ has_id j vs
unfolding has_id delete_version
has_id-delete_version j k [] h = refl
has_id-delete_version j k ((i, v) ∷ rest) h =
    ground
      (arith, has_id-delete_version j k rest h, text_eq_iff i k, text_eq_iff i j, text_eq_iff k j)

length-delete_version : (k : Text) (vs : Dict Version) → length (delete_version k vs) ≤ length vs
unfolding delete_version
length-delete_version k [] = omega arith
length-delete_version k ((i, v) ∷ rest) = elim (Bool-cases (text_eq i k)) [
  | inl e ↦ rw e (omega (arith, length-delete_version k rest))
  | inr e ↦ rw e (omega (arith, length-delete_version k rest))
]

length-delete_version_held :
    (k : Text) (vs : Dict Version)
    → has_id k vs ≡ true
    → suc (length (delete_version k vs)) ≤ length vs
unfolding delete_version has_id
length-delete_version_held k [] h = cc
length-delete_version_held k ((i, v) ∷ rest) h = elim (Bool-cases (text_eq i k)) [
  | inl e ↦ rw e (omega (arith, length-delete_version k rest))
  | inr e ↦ rw e (omega (arith, length-delete_version_held k rest (rw e at h)))
]

UniqueIds-delete_version :
    (k : Text) (vs : Dict Version) → UniqueIds vs → UniqueIds (delete_version k vs)
unfolding delete_version has_id
UniqueIds-delete_version k [] h = tt
UniqueIds-delete_version k ((i, v) ∷ rest) (h, u) = elim (Bool-cases (text_eq i k)) [
  | inl e ↦ rw e (UniqueIds-delete_version k rest u)
  | inr e ↦ rw e (
    has_id-delete_version i k rest (ground (arith, text_eq_iff i k, text_eq_iff k i)) ∙ h,
    UniqueIds-delete_version k rest u,
  )
]

All-IsHeld-delete_version :
    (e : AgeEntry) (es : List AgeEntry) (vs : Dict Version)
    → All (IsOther e) es
    → All (IsHeld vs) es
    → All (IsHeld (delete_version e.entry_id vs)) es
All-IsHeld-delete_version e [] vs o h = tt
All-IsHeld-delete_version e (f ∷ fs) vs (o, os) (p, ps) =
    (has_id-delete_version f.entry_id e.entry_id vs o ∙ p, All-IsHeld-delete_version e fs vs os ps)

-- Within the limit, and no identifier twice.
abbrev pub IsBounded : ℕ → Dict Version → Type 0
IsBounded limit vs = (length vs ≤ limit) × UniqueIds vs

pub IsBounded-evict_loop :
    (limit : ℕ) (es : List AgeEntry) (vs : Dict Version)
    → AreDistinct es
    → All (IsHeld vs) es
    → length vs ≤ length es
    → UniqueIds vs
    → IsBounded limit ((evict_loop limit es vs).0)
unfolding evict_loop
IsBounded-evict_loop limit [] vs d h l u = (omega arith, u)
IsBounded-evict_loop limit (e ∷ es) vs (o, d) (p, h) l u = go (ltb limit (suc (length es))) refl (
    IsBounded-evict_loop limit es (delete_version e.entry_id vs) d
      (All-IsHeld-delete_version e es vs o h)
      (omega (arith, length-delete_version_held e.entry_id vs p))
      (UniqueIds-delete_version e.entry_id vs u))
  where
    go :
        (b : Bool)
        → ltb limit (suc (length es)) ≡ b
        → IsBounded limit ((evict_loop limit es (delete_version e.entry_id vs)).0)
        → (λ (x : Dict Version × List Text). IsBounded limit x.0)
            (if b
              then (
                (evict_loop limit es (delete_version e.entry_id vs)).0,
                e.entry_id ∷ (evict_loop limit es (delete_version e.entry_id vs)).1,
              )
              else (vs, []))
    go true x y = y
    go false x y = (ground arith, u)
