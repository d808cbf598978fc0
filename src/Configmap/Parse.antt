-- ===== src/Configmap/Parse.antt =====
-- Which paths `parse` accepts, and what `Get` and `Set` do with the parts.
use confii_go.Base.{◌≡◌, refl, ◌∙◌, ap, Bool, true, false, Option, none, some, List, [], ◌∷◌}
use confii_go.Base.{not, ◌≢◌, ◌⊎◌, Text, every, inl, inr}
use confii_go.Value.{Value, Fields, mapping}
use confii_go.Base.Split.{
  split, join, lacks, split-ne-nil, join-split, split-lacks, split-join, is_empty,
}
use confii_go.Configmap.{
  PathError, invalid_path, invalid_segment, dot, parse, walk, get, assign, set_parts, set,
}

pub parse-split :
    (path : Text)
    → path ≢ []
    → parse path ≡ (split dot path, every (λ p. not (is_empty p)) (split dot path))
unfolding parse
parse-split [] h = absurd (h refl)
parse-split (c ∷ path) h = refl

-- A path that `parse` accepts is its parts, of which there is at least one.
pub parse_accepted :
    (path : Text) (parts : List Text)
    → parse path ≡ (parts, true)
    → (parts ≢ [])
      × (join dot parts ≡ path)
      × (every (lacks dot) parts ≡ true)
      × (every (λ p. not (is_empty p)) parts ≡ true)
unfolding parse
parse_accepted [] parts h = cc
parse_accepted (c ∷ path) parts h =
    let e : split dot (c ∷ path) ≡ parts = ap (λ r. r.0) h in
    rw (← e) (
      split-ne-nil dot (c ∷ path),
      join-split dot (c ∷ path),
      split-lacks dot (c ∷ path),
      ap (λ r. r.1) h,
    )

-- Parts that are not empty and hold no dot are those of their join.
pub parse-join :
    (parts : List Text)
    → parts ≢ []
    → every (λ p. not (is_empty p)) parts ≡ true
    → every (lacks dot) parts ≡ true
    → parse (join dot parts) ≡ (parts, true)
parse-join [] h full free = absurd (h refl)
parse-join (p ∷ ps) h full free =
    parse-split (join dot (p ∷ ps)) (join-ne-nil p ps full)
    ∙ rw (split-join dot p ps free) (rw full)
  where
    join-ne-nil :
        (p : Text) (ps : List Text)
        → every (λ q. not (is_empty q)) (p ∷ ps) ≡ true
        → join dot (p ∷ ps) ≢ []
    join-ne-nil [] ps full = cc
    join-ne-nil (c ∷ p) [] full = unfold join in λ e. cc
    join-ne-nil (c ∷ p) (q ∷ ps) full = unfold join in λ e. cc

-- A path is refused, or has a first part.
pub parse-cases :
    (path : Text)
    → ((parts : List Text) × (parse path ≡ (parts, false)))
      ⊎ ((p : Text) × (ps : List Text) × (parse path ≡ (p ∷ ps, true)))
parse-cases path = go (parse path) refl
  where
    go :
        (r : List Text × Bool)
        → parse path ≡ r
        → ((parts : List Text) × (parse path ≡ (parts, false)))
          ⊎ ((p : Text) × (ps : List Text) × (parse path ≡ (p ∷ ps, true)))
    go (parts, false) e = inl (parts, e)
    go ([], true) e = absurd ((parse_accepted path [] e).0 refl)
    go (p ∷ ps, true) e = inr (p, ps, e)

pub get_of_parts :
    (m : Fields) (path : Text) (parts : List Text)
    → parse path ≡ (parts, true)
    → get (some m) path ≡ walk (mapping m) parts
unfolding get
get_of_parts m path parts h = rw (h, get)

pub get_refused :
    (m : Fields) (path : Text) (parts : List Text)
    → parse path ≡ (parts, false)
    → get (some m) path ≡ none
unfolding get
get_refused m path parts h = rw (h, get)

pub set_of_parts :
    (m : Fields) (path p : Text) (ps : List Text) (value : Value)
    → parse path ≡ (p ∷ ps, true)
    → let written : Fields × Option PathError = assign path [] p ps m value in
      set (some m) path value ≡ (some written.0, written.1)
unfolding set set_parts
set_of_parts m path p ps value h = rw (h, set)

pub set_refused :
    (m : Fields) (path : Text) (parts : List Text) (value : Value)
    → parse path ≡ (parts, false)
    → set (some m) path value
      ≡ (some m, some (record { path = path; segment = invalid_segment parts; err = invalid_path }))
unfolding set
set_refused m path parts value h = rw (h, set)
