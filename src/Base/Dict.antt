-- ===== src/Base/Dict.antt =====
-- A Go map from strings: its entries, in the order of one iteration.
use mathlib.Core.Path.{◌≡◌, refl, ◌∙◌}
use mathlib.Core.Bool.{Bool, true, false}
use mathlib.Core.Option.{Option, none, some}
use mathlib.Core.List.{List, [], ◌∷◌}
use native.Mathlib.Omega.{arith}
use confii_go.Base.Bools.{if◌then◌else◌}
use confii_go.Base.Texts.{Text, text_eq, text_eq_iff, text_eq_refl}

abbrev pub Dict {ℓ} : Type ℓ → Type ℓ
Dict A = List (Text × A)

module _ {ℓ} {A : Type ℓ} where
  -- `v, ok := m[k]`
  unfoldable pub find : Text → Dict A → Option A
  find k [] = none
  find k ((j, a) ∷ rest) = if text_eq j k then some a else find k rest

  -- `m[k] = a`
  unfoldable pub put : Text → A → Dict A → Dict A
  put k a [] = (k, a) ∷ []
  put k a ((j, b) ∷ rest) =
      let later = put k a rest in if text_eq j k then (j, a) ∷ rest else (j, b) ∷ later

  pub find-put : (k : Text) (a : A) (d : Dict A) → find k (put k a d) ≡ some a
  unfolding find put
  find-put k a [] = ground (arith, text_eq_refl k)
  find-put k a ((j, b) ∷ rest) = ground (arith, find-put k a rest)

  pub find-put_other :
      (k j : Text) (a : A) (d : Dict A) → text_eq k j ≡ false → find j (put k a d) ≡ find j d
  unfolding find put
  find-put_other k j a [] h = ground arith
  find-put_other k j a ((i, b) ∷ rest) h =
      ground (arith, find-put_other k j a rest h, text_eq_iff i k, text_eq_iff i j, text_eq_iff k j)

  -- No key stands twice, as in every Go map.
  abbrev pub IsDistinct : Dict A → Type ℓ
  IsDistinct [] = Unit
  IsDistinct ((k, a) ∷ d) = (find k d ≡ none) × IsDistinct d

  pub put-IsDistinct : (k : Text) (a : A) (d : Dict A) → IsDistinct d → IsDistinct (put k a d)
  unfolding find put
  put-IsDistinct k a [] h = (refl, tt)
  put-IsDistinct k a ((j, b) ∷ rest) (new, h) =
      branches (text_eq j k) refl (put-IsDistinct k a rest h)
    where
      branches :
          (same : Bool)
          → text_eq j k ≡ same
          → IsDistinct (put k a rest)
          → IsDistinct (if same then (j, a) ∷ rest else (j, b) ∷ put k a rest)
      branches true e later = (new, h)
      branches false e later = (
        find-put_other k j a rest (ground (arith, text_eq_iff j k, text_eq_iff k j)) ∙ new,
        later,
      )
