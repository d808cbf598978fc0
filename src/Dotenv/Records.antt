-- ===== src/Dotenv/Records.antt =====
-- internal/dotenvparse/parse.go: the split of a .env file into records, each with the line at which it
-- begins. A record goes on while a quote is open.
use confii_go.Base.{
  ℕ, ◌+◌, Bool, true, false, not, ◌&&◌, ◌||◌, Option, none, some, List, [], ◌∷◌, ◌++◌, ◌==◌,
}
use confii_go.Base.{Text, if◌then◌else◌}
use confii_go.Base.Split.{split, join}

abbrev pub newline : ℕ
newline = 10

abbrev carriage_return : ℕ
carriage_return = 13

abbrev backslash : ℕ
backslash = 92

abbrev pub double_quote : ℕ
double_quote = 34

abbrev single_quote : ℕ
single_quote = 39

-- A record and its first line.
pub record LogicalRecord : Type 0 where
  pub line : ℕ
  pub text : Text

-- `strings.ReplaceAll(input, "\r\n", "\n")`
unfoldable pub replace_line_ends : Text → Text
replace_line_ends [] = []
replace_line_ends (c ∷ []) = c ∷ []
replace_line_ends (c ∷ d ∷ s) =
    let rest = replace_line_ends (d ∷ s) in
    if c == carriage_return && d == newline then rest else c ∷ rest

-- One round of the loop of `openQuote`, on `escaped` and `quote`, of which 0 means none: the values
-- after it, or none where the loop breaks.
unfoldable pub quote_step : Bool → ℕ → ℕ → Option (Bool × ℕ)
quote_step escaped quote char =
    if quote == double_quote && escaped
    then some (false, quote)
    else if quote == double_quote && char == backslash
    then some (true, quote)
    else if not (quote == 0)
    then (if char == quote then some (escaped, 0) else some (escaped, quote))
    else if char == b'#'
    then none
    else if char == single_quote || char == double_quote
    then some (escaped, char)
    else some (escaped, quote)

-- The loop of `openQuote`.
unfoldable pub quote_after : Bool → ℕ → Text → ℕ
quote_after escaped quote [] = quote
quote_after escaped quote (char ∷ line) = elim (quote_step escaped quote char) [
  | none ↦ quote
  | some (escaped', quote') ↦ quote_after escaped' quote' line
]

unfoldable pub open_quote : Text → ℕ → ℕ
open_quote line quote = quote_after false quote line

-- The loops of `logicalRecords`, inside a record whose lines are `parts`. `index` is the number of the
-- lines that are read.
unfoldable pub records_from : ℕ → List Text → ℕ → ℕ → List Text → List LogicalRecord
records_from start parts quote index [] =
    record { line = start + 1; text = join newline parts } ∷ []
records_from start parts quote index (l ∷ lines) = elim (quote == 0) [
  | true ↦
      record { line = start + 1; text = join newline parts }
      ∷ records_from index (l ∷ []) (open_quote l 0) (index + 1) lines
  | false ↦ records_from start (parts ++ (l ∷ [])) (open_quote l quote) (index + 1) lines
]

unfoldable pub records_of_lines : List Text → List LogicalRecord
records_of_lines [] = []
records_of_lines (l ∷ lines) = records_from 0 (l ∷ []) (open_quote l 0) 1 lines

unfoldable pub logical_records : Text → List LogicalRecord
logical_records input = records_of_lines (split newline (replace_line_ends input))

-- Whether a byte is inside double quotes, where `previous` is the byte before, if there is one: a
-- quotation mark turns it over unless a backslash precedes.
unfoldable pub in_quotes_after : Bool → Option ℕ → ℕ → Bool
in_quotes_after inside none c = if c == double_quote then not inside else inside
in_quotes_after inside (some p) c =
    if c == double_quote && not (p == backslash) then not inside else inside

-- The loop of `normalizeDoubleQuotedTabs`.
unfoldable pub normalize_tabs : Bool → Option ℕ → Text → Text
normalize_tabs inside previous [] = []
normalize_tabs inside previous (c ∷ []) = c ∷ []
normalize_tabs inside previous (c ∷ d ∷ s) =
    let inside' = in_quotes_after inside previous c in
    elim ((inside' && c == backslash) && d == b't') [
      | true ↦ 9 ∷ normalize_tabs inside' (some d) s
      | false ↦ c ∷ normalize_tabs inside' (some c) (d ∷ s)
    ]

unfoldable pub normalize_double_quoted_tabs : Text → Text
normalize_double_quoted_tabs s = normalize_tabs false none s
