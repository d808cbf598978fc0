-- ===== src/Base/Sort.antt =====
-- `sort.Strings`: an ascending list with the same elements. Strings that compare equal are the same
-- string, so every sorting algorithm gives this list.
use mathlib.Core.Path.{◌≡◌, refl}
use mathlib.Core.Bool.{◌||◌}
use mathlib.Core.List.{List, [], ◌∷◌}
use native.Mathlib.Omega.{arith}
use confii_go.Base.Bools.{if◌then◌else◌}
use confii_go.Base.Texts.{Text, text_eq, text_lt, contains_text}

unfoldable pub insert_text : Text → List Text → List Text
insert_text s [] = s ∷ []
insert_text s (t ∷ ts) =
    let later = insert_text s ts in if text_lt t s then t ∷ later else s ∷ t ∷ ts

unfoldable pub sort_texts : List Text → List Text
unfolding insert_text
sort_texts [] = []
sort_texts (s ∷ ts) = insert_text s (sort_texts ts)

contains-insert_text :
    (k s : Text) (ts : List Text)
    → contains_text (insert_text s ts) k ≡ (text_eq s k || contains_text ts k)
unfolding insert_text contains_text
contains-insert_text k s [] = refl
contains-insert_text k s (t ∷ ts) = ground (arith, contains-insert_text k s ts)

-- Sorting keeps the elements.
pub contains-sort_texts :
    (k : Text) (ts : List Text) → contains_text (sort_texts ts) k ≡ contains_text ts k
unfolding sort_texts contains_text
contains-sort_texts k [] = refl
contains-sort_texts k (s ∷ ts) =
    ground (arith, contains-insert_text k s (sort_texts ts), contains-sort_texts k ts)
