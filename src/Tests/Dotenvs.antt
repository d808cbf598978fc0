-- ===== src/Tests/Dotenvs.antt =====
-- A small .env file.
use confii_go.Base.{
  ◌≡◌, ◌↔◌, refl, true, false, Option, none, some, [], ◌∷◌, ◌++◌, Text, codes, ◌^◌, ◌-◌, inl,
  has_prefix,
}
use confii_go.Base.Int.{pos, negsuc}
use confii_go.Base.Dict.{Dict}
use confii_go.Base.Split.{split, join}
use confii_go.Value.{Value, integer}
use confii_go.Dotenv.Records.{
  newline, replace_line_ends, logical_records, records_of_lines, records_from, open_quote,
  quote_after, quote_step, normalize_double_quoted_tabs, normalize_tabs, in_quotes_after,
}
use confii_go.Dotenv.Lines.{texts, IsNumbered, logical_records-lines}
use confii_go.Dotenv.Reading.{
  Admitted, admit_records, after_check, after_parse, record_fault, assignment_key, cut_at_equals,
}
use confii_go.Dotenv.Accepted.{Agrees, admit_records-Agrees, admit_records-whole}
use confii_go.Typecoerce.{format_int, parse_scalar}
use confii_go.Typecoerce.Integers.{in_range, parse_scalar-integer}

-- The second record has two lines.
abbrev file : Text
file = codes "a=1" ++ (10 ∷ (codes "b='x" ++ (10 ∷ codes "y'")))

two_records : texts (logical_records file) ≡ codes "a=1" ∷ (codes "b='x" ++ (10 ∷ codes "y'")) ∷ []
unfolding logical_records records_of_lines records_from replace_line_ends split open_quote
    quote_after quote_step join
two_records = refl

logical_records-lines_example :
    (join newline (texts (logical_records file)) ≡ replace_line_ends file)
    × IsNumbered 0 (logical_records file)
logical_records-lines_example = logical_records-lines file

abbrev read_values : Text → Option (Dict Text)
read_values s = some ((codes "a", codes "1") ∷ [])

abbrev as_integer : Text → Value
as_integer s = integer (pos 1)

abbrev line : Text
line = codes "a=1"

abbrev admitted : Admitted
admitted = record { accepted = line ∷ []; values = (codes "a", codes "1") ∷ [] }

admit_records-whole_example : read_values (replace_line_ends line) ≡ some admitted.values
unfolding logical_records records_of_lines records_from replace_line_ends split open_quote
    quote_after quote_step join normalize_double_quoted_tabs normalize_tabs in_quotes_after
    admit_records after_check after_parse record_fault assignment_key cut_at_equals has_prefix
admit_records-whole_example =
    admit_records-whole {E = Text} (λ s. s) read_values as_integer line admitted (refl, tt) refl

admit_records-Agrees_example : Agrees read_values admitted
unfolding logical_records records_of_lines records_from replace_line_ends split open_quote
    quote_after quote_step join normalize_double_quoted_tabs normalize_tabs in_quotes_after
    admit_records after_check after_parse record_fault assignment_key cut_at_equals has_prefix
admit_records-Agrees_example =
    admit_records-Agrees {E = Text} (λ s. s) read_values as_integer (some (λ issue. none))
      (logical_records line) (record { accepted = []; values = [] }) admitted (inl (refl, refl))
      refl

parse_scalar-integer_example :
    (parse_scalar 64 (λ s. s) (λ s. s) (λ s. none) (codes "-42") false ≡ integer (negsuc 41))
    ↔ ((codes "-42" ≡ format_int (negsuc 41)) × (in_range (2 ^ (64 - 1)) (negsuc 41) ≡ true))
parse_scalar-integer_example =
    parse_scalar-integer 64 (λ s. s) (λ s. s) (λ s. none) (codes "-42") false (negsuc 41) refl
