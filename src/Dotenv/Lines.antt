-- ===== src/Dotenv/Lines.antt =====
-- The records of a .env file and its lines.
use confii_go.Base.{
  ℕ, ◌+◌, Bool, true, false, List, [], ◌∷◌, ◌++◌, ◌==◌, ◌≡◌, ◌≢◌, refl, ap, sym, ◌∙◌, arith,
  append-nil, append_assoc, length, length-append, every, every-append,
}
use mathlib.Core.Path.{subst}
use confii_go.Base.{Text}
use confii_go.Base.Split.{
  split, join, lacks, join-cons, join-append, join-split, split-ne-nil, split-join, split-lacks,
}
use confii_go.Dotenv.Records.{
  LogicalRecord, newline, replace_line_ends, open_quote, records_from, records_of_lines,
  logical_records,
}

abbrev pub texts : List LogicalRecord → List Text
texts [] = []
texts (r ∷ rs) = r.text ∷ texts rs

-- Each record begins on the line after the last line of the one before; `n` lines come before.
abbrev pub IsNumbered : ℕ → List LogicalRecord → Type 0
IsNumbered n [] = Unit
IsNumbered n (r ∷ rs) = (r.line ≡ n + 1) × IsNumbered (n + length (split newline r.text)) rs

append-ne-nil : (xs : List Text) (y : Text) → xs ++ (y ∷ []) ≢ []
append-ne-nil [] y e = cc
append-ne-nil (x ∷ xs) y e = cc

records_from-ne-nil :
    (start quote index : ℕ) (parts lines : List Text)
    → texts (records_from start parts quote index lines) ≢ []
unfolding records_from
records_from-ne-nil start quote index parts [] = λ e. cc
records_from-ne-nil start quote index parts (l ∷ lines) =
    branches (quote == 0)
      (records_from-ne-nil start (open_quote l quote) (index + 1) (parts ++ (l ∷ [])) lines)
  where
    branches :
        (b : Bool)
        → texts (records_from start (parts ++ (l ∷ [])) (open_quote l quote) (index + 1) lines) ≢ []
        → texts (elim b [
          | true ↦
              record { line = start + 1; text = join newline parts }
              ∷ records_from index (l ∷ []) (open_quote l 0) (index + 1) lines
          | false ↦ records_from start (parts ++ (l ∷ [])) (open_quote l quote) (index + 1) lines
        ])
          ≢ []
    branches true h = λ e. cc
    branches false h = h

pub logical_records-ne-nil : (input : Text) → texts (logical_records input) ≢ []
unfolding logical_records
logical_records-ne-nil input =
    filled (split newline (replace_line_ends input))
      (split-ne-nil newline (replace_line_ends input))
  where
    filled : (ls : List Text) → ls ≢ [] → texts (records_of_lines ls) ≢ []
    filled [] h = absurd (h refl)
    filled (l ∷ ls) h =
        unfold records_of_lines in records_from-ne-nil 0 (open_quote l 0) 1 (l ∷ []) ls

join-records_from :
    (start quote index : ℕ) (parts lines : List Text)
    → parts ≢ []
    → join newline (texts (records_from start parts quote index lines))
      ≡ join newline (parts ++ lines)
unfolding records_from
join-records_from start quote index parts [] h =
    unfold join in ap (join newline) (sym (append-nil parts))
join-records_from start quote index parts (l ∷ lines) h =
    branches (quote == 0)
      (join-records_from index (open_quote l 0) (index + 1) (l ∷ []) lines (λ e. cc))
      (join-records_from start (open_quote l quote) (index + 1) (parts ++ (l ∷ [])) lines
        (append-ne-nil parts l))
  where
    branches :
        (b : Bool)
        → join newline (texts (records_from index (l ∷ []) (open_quote l 0) (index + 1) lines))
          ≡ join newline (l ∷ lines)
        → join newline
            (texts (records_from start (parts ++ (l ∷ [])) (open_quote l quote) (index + 1) lines))
          ≡ join newline ((parts ++ (l ∷ [])) ++ lines)
        → join newline (
            texts (elim b [
              | true ↦
                  record { line = start + 1; text = join newline parts }
                  ∷ records_from index (l ∷ []) (open_quote l 0) (index + 1) lines
              | false ↦
                  records_from start (parts ++ (l ∷ [])) (open_quote l quote) (index + 1) lines
            ]))
          ≡ join newline (parts ++ (l ∷ lines))
    branches true ended goes_on =
        join-cons newline (join newline parts) _
          (records_from-ne-nil index (open_quote l 0) (index + 1) (l ∷ []) lines)
        ∙ ap (λ s. join newline parts ++ (newline ∷ s)) ended
        ∙ sym (join-append newline parts (l ∷ lines) h (λ e. cc))
    branches false ended goes_on = goes_on ∙ ap (join newline) (append_assoc parts (l ∷ []) lines)

split-parts :
    (parts : List Text)
    → parts ≢ []
    → every (lacks newline) parts ≡ true
    → split newline (join newline parts) ≡ parts
split-parts [] h k = absurd (h refl)
split-parts (p ∷ ps) h k = split-join newline p ps k

records_from-IsNumbered :
    (start quote index : ℕ) (parts lines : List Text)
    → parts ≢ []
    → every (lacks newline) (parts ++ lines) ≡ true
    → index ≡ start + length parts
    → IsNumbered start (records_from start parts quote index lines)
unfolding records_from
records_from-IsNumbered start quote index parts [] h k e = (refl, tt)
records_from-IsNumbered start quote index parts (l ∷ lines) h k e =
    branches (quote == 0)
      (records_from-IsNumbered index (open_quote l 0) (index + 1) (l ∷ []) lines (λ f. cc)
        (ground (arith, every-append (lacks newline) parts (l ∷ lines))) refl)
      (records_from-IsNumbered start (open_quote l quote) (index + 1) (parts ++ (l ∷ [])) lines
        (append-ne-nil parts l) (ap (every (lacks newline)) (append_assoc parts (l ∷ []) lines) ∙ k)
        (omega (arith, length-append parts (l ∷ []))))
  where
    last_line : start + length (split newline (join newline parts)) ≡ index
    last_line =
        ap (λ ps. start + length ps)
          (split-parts parts h (ground (arith, every-append (lacks newline) parts (l ∷ lines))))
        ∙ sym e

    branches :
        (b : Bool)
        → IsNumbered index (records_from index (l ∷ []) (open_quote l 0) (index + 1) lines)
        → IsNumbered start
            (records_from start (parts ++ (l ∷ [])) (open_quote l quote) (index + 1) lines)
        → IsNumbered start (elim b [
          | true ↦
              record { line = start + 1; text = join newline parts }
              ∷ records_from index (l ∷ []) (open_quote l 0) (index + 1) lines
          | false ↦ records_from start (parts ++ (l ∷ [])) (open_quote l quote) (index + 1) lines
        ])
    branches true ended goes_on = (
      refl,
      subst (λ n. IsNumbered n (records_from index (l ∷ []) (open_quote l 0) (index + 1) lines))
          (sym last_line) ended,
    )
    branches false ended goes_on = goes_on

-- The records of a file, joined by line feeds, are the file with its line ends made line feeds, and
-- each record is numbered by the line on which it begins, counted from 1.
pub logical_records-lines :
    (input : Text)
    → (join newline (texts (logical_records input)) ≡ replace_line_ends input)
      × IsNumbered 0 (logical_records input)
unfolding logical_records
logical_records-lines input =
    elim_lines (split newline (replace_line_ends input))
      (split-ne-nil newline (replace_line_ends input))
      (split-lacks newline (replace_line_ends input)) (join-split newline (replace_line_ends input))
  where
    elim_lines :
        (ls : List Text)
        → ls ≢ []
        → every (lacks newline) ls ≡ true
        → join newline ls ≡ replace_line_ends input
        → (join newline (texts (records_of_lines ls)) ≡ replace_line_ends input)
          × IsNumbered 0 (records_of_lines ls)
    elim_lines [] h k e = absurd (h refl)
    elim_lines (l ∷ ls) h k e =
        unfold records_of_lines in
        (
          join-records_from 0 (open_quote l 0) 1 (l ∷ []) ls (λ f. cc) ∙ e,
          records_from-IsNumbered 0 (open_quote l 0) 1 (l ∷ []) ls (λ f. cc) k refl,
        )
