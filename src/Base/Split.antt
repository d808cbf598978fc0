-- ===== src/Base/Split.antt =====
-- `strings.Split`, `strings.Join` and `strings.TrimSuffix` at a separator of one byte.
use Prim.Native.Nat.{ℕ}
use mathlib.Core.Path.{◌≡◌, refl, sym, ◌∙◌, ap}
use mathlib.Core.Logic.{◌≢◌, inl, inr}
use mathlib.Core.Bool.{Bool, true, false, not}
use mathlib.Core.List.{List, [], ◌∷◌, ◌++◌, append_assoc}
use native.Mathlib.Omega.{arith}
use confii_go.Base.Bools.{◌==◌, if◌then◌else◌, Bool-cases}
use confii_go.Base.Lists.{every}
use confii_go.Base.Texts.{Text}

-- A byte in front of the first part.
abbrev pub attach : ℕ → List Text → List Text
attach c [] = (c ∷ []) ∷ []
attach c (p ∷ ps) = (c ∷ p) ∷ ps

unfoldable pub split : ℕ → Text → List Text
split sep [] = [] ∷ []
split sep (c ∷ s) = let rest = split sep s in if c == sep then [] ∷ rest else attach c rest

unfoldable pub join : ℕ → List Text → Text
join sep [] = []
join sep (p ∷ []) = p
join sep (p ∷ q ∷ ps) = p ++ (sep ∷ join sep (q ∷ ps))

abbrev pub lacks : ℕ → Text → Bool
lacks sep = every (λ c. not (c == sep))

abbrev pub is_empty : Text → Bool
is_empty [] = true
is_empty (c ∷ s) = false

pub split-ne-nil : (sep : ℕ) (s : Text) → split sep s ≢ []
unfolding split
split-ne-nil sep [] = λ e. cc
split-ne-nil sep (c ∷ s) = elim (Bool-cases (c == sep)) [
  | inl h ↦ rw h (λ e. cc)
  | inr h ↦ rw h (attach-ne-nil (split sep s))
]
  where
    attach-ne-nil : (ps : List Text) → attach c ps ≢ []
    attach-ne-nil [] e = cc
    attach-ne-nil (p ∷ ps) e = cc

join-attach : (sep c : ℕ) (ps : List Text) → join sep (attach c ps) ≡ c ∷ join sep ps
unfolding join
join-attach sep c [] = refl
join-attach sep c (p ∷ []) = refl
join-attach sep c (p ∷ q ∷ ps) = refl

pub join-cons :
    (sep : ℕ) (p : Text) (ps : List Text) → ps ≢ [] → join sep (p ∷ ps) ≡ p ++ (sep ∷ join sep ps)
unfolding join
join-cons sep p [] h = absurd (h refl)
join-cons sep p (q ∷ ps) h = refl

pub join-append :
    (sep : ℕ) (ps qs : List Text)
    → ps ≢ []
    → qs ≢ []
    → join sep (ps ++ qs) ≡ join sep ps ++ (sep ∷ join sep qs)
unfolding join
join-append sep [] qs h k = absurd (h refl)
join-append sep (p ∷ []) qs h k = join-cons sep p qs k
join-append sep (p ∷ q ∷ ps) qs h k =
    join-cons sep p ((q ∷ ps) ++ qs) (λ e. cc)
    ∙ ap (λ r. p ++ (sep ∷ r)) (join-append sep (q ∷ ps) qs (λ e. cc) k)
    ∙ sym (append_assoc p (sep ∷ join sep (q ∷ ps)) (sep ∷ join sep qs))
    ∙ ap (λ r. r ++ (sep ∷ join sep qs)) (sym (join-cons sep p (q ∷ ps) (λ e. cc)))

pub join-split : (sep : ℕ) (s : Text) → join sep (split sep s) ≡ s
unfolding split
join-split sep [] = unfold join in refl
join-split sep (c ∷ s) = elim (Bool-cases (c == sep)) [
  | inl h ↦
      rw h
        (rw (join-cons sep [] (split sep s) (split-ne-nil sep s), join-split sep s) (ground arith))
  | inr h ↦ rw h (rw (join-attach, join-split sep s) refl)
]

pub split_of_lacks : (sep : ℕ) (p : Text) → lacks sep p ≡ true → split sep p ≡ p ∷ []
unfolding split
split_of_lacks sep [] h = refl
split_of_lacks sep (c ∷ p) h = ground (arith, split_of_lacks sep p)

pub split-append :
    (sep : ℕ) (p s : Text) → lacks sep p ≡ true → split sep (p ++ (sep ∷ s)) ≡ p ∷ split sep s
unfolding split
split-append sep [] s h = ground arith
split-append sep (c ∷ p) s h = ground (arith, split-append sep p s)

pub split-join :
    (sep : ℕ) (p : Text) (ps : List Text)
    → every (lacks sep) (p ∷ ps) ≡ true
    → split sep (join sep (p ∷ ps)) ≡ p ∷ ps
unfolding join
split-join sep p [] h = split_of_lacks sep p (ground arith)
split-join sep p (q ∷ ps) h =
    rw (split-append sep p _ (ground arith)) (ap (λ r. p ∷ r) (split-join sep q ps (ground arith)))

every-attach :
    (sep c : ℕ) (ps : List Text)
    → (c == sep) ≡ false
    → every (lacks sep) ps ≡ true
    → every (lacks sep) (attach c ps) ≡ true
every-attach sep c [] h k = ground arith
every-attach sep c (p ∷ ps) h k = ground arith

-- No part of a split holds the separator.
pub split-lacks : (sep : ℕ) (s : Text) → every (lacks sep) (split sep s) ≡ true
unfolding split
split-lacks sep [] = refl
split-lacks sep (c ∷ s) = elim (Bool-cases (c == sep)) [
  | inl h ↦ rw h (split-lacks sep s)
  | inr h ↦ rw h (every-attach sep c (split sep s) h (split-lacks sep s))
]
