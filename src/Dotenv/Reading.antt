-- ===== src/Dotenv/Reading.antt =====
-- internal/dotenvparse/parse.go: Parse, which admits the records one after the other.
use confii_go.Base.{ℕ, Bool, true, false, not, ◌||◌, Option, none, some, List, [], ◌∷◌, ◌++◌, ◌==◌}
use confii_go.Base.{Text, codes, has_prefix, if◌then◌else◌}
use confii_go.Base.Split.{join, is_empty}
use confii_go.Base.Sort.{sort_texts}
use confii_go.Base.Dict.{Dict, find}
use confii_go.Value.{Value, Fields, end, field}
use confii_go.Configmap.{PathError, set}
use confii_go.Envhandler.{or_empty}
use confii_go.Dotenv.Records.{LogicalRecord, newline, logical_records, normalize_double_quoted_tabs}

pub data IssueError : Type 0 where
  missing_separator : IssueError
  empty_variable_name : IssueError
  invalid_syntax : IssueError
  invalid_key : Text → PathError → IssueError

-- An Issue; the line 0 stands for none.
pub record Issue : Type 0 where
  pub line : ℕ
  pub err : IssueError

-- What ends a parse: the error of a handler, or an issue that no handler was given.
pub data DotenvError (E : Type 0) : Type 0 where
  from_handler : E → DotenvError E
  unhandled : Issue → DotenvError E

pub data Reading (E : Type 0) (A : Type 0) : Type 0 where
  read : A → Reading E A
  broken : DotenvError E → Reading E A

-- The variables of the loop over the records.
pub record Admitted : Type 0 where
  pub accepted : List Text
  pub values : Dict Text

abbrev pub equals_sign : ℕ
equals_sign = 61

-- `strings.Cut(record, "=")`: the part before, and whether there is one.
unfoldable pub cut_at_equals : Text → Text × Bool
cut_at_equals [] = ([], false)
cut_at_equals (c ∷ s) =
    let (before, found) = cut_at_equals s in
    if c == equals_sign then ([], true) else (c ∷ before, found)

-- `strings.TrimPrefix` of a prefix that is there.
unfoldable pub without_prefix : Text → Text → Text
without_prefix s [] = s
without_prefix [] (p ∷ ps) = []
without_prefix (c ∷ s) (p ∷ ps) = without_prefix s ps

abbrev pub export_prefix : Text
export_prefix = codes "export "

unfoldable pub values_keys : Dict Text → List Text
values_keys [] = []
values_keys ((k, v) ∷ rest) = k ∷ values_keys rest

abbrev value_or_empty : Option Text → Text
value_or_empty none = []
value_or_empty (some v) = v

module _ {E : Type 0} (trim_space : Text → Text) (unmarshal : Text → Option (Dict Text))
    (parse_scalar : Text → Value) (on_issue : Option (Issue → Option E)) where
  unfoldable pub assignment_key : Text → Text × Bool
  assignment_key s =
      let trimmed =
        if has_prefix s export_prefix then trim_space (without_prefix s export_prefix) else s in
      let (key, ok) = cut_at_equals trimmed in (trim_space key, ok)

  -- `handle`, and the caller's continuation where it returns nil.
  unfoldable pub handle : {A : Type 0} → Issue → Reading E A → Reading E A
  handle issue next = elim on_issue [
    | none ↦ broken (unhandled issue)
    | some handler ↦ elim (handler issue) [ none ↦ next | some e ↦ broken (from_handler e) ]
  ]

  -- The check of a record before godotenv sees it.
  unfoldable pub record_fault : Text → Option IssueError
  record_fault trimmed =
      if is_empty trimmed || has_prefix trimmed (codes "#")
      then none
      else let (key, ok) = assignment_key trimmed in
        if not ok
        then some missing_separator
        else if is_empty key
        then some empty_variable_name
        else none

  -- The two tests of a record. `skipped` and `admitted` are the rest of the loop.
  unfoldable pub after_parse :
      ℕ
      → Reading E Admitted
      → (Dict Text → Reading E Admitted)
      → Option (Dict Text)
      → Reading E Admitted
  after_parse line skipped admitted none =
      handle (record { line = line; err = invalid_syntax }) skipped
  after_parse line skipped admitted (some parsed) = admitted parsed

  unfoldable pub after_check :
      ℕ → Reading E Admitted → Reading E Admitted → Option IssueError → Reading E Admitted
  after_check line skipped parsing none = parsing
  after_check line skipped parsing (some fault) =
      handle (record { line = line; err = fault }) skipped

  -- The loop over the records.
  unfoldable pub admit_records : List LogicalRecord → Admitted → Reading E Admitted
  admit_records [] a = read a
  admit_records (r ∷ records) a =
      let candidate = a.accepted ++ (normalize_double_quoted_tabs r.text ∷ []) in
      after_check r.line (admit_records records a)
        (after_parse r.line (admit_records records a)
          (λ parsed. admit_records records (record { accepted = candidate; values = parsed }))
          (unmarshal (join newline candidate)))
        (record_fault (trim_space r.text))

  -- The loop over the sorted keys.
  unfoldable pub set_values : Dict Text → List Text → Fields → Reading E Fields
  set_values values [] result = read result
  set_values values (key ∷ keys) result =
      let (written, e) = set (some result) key (parse_scalar (value_or_empty (find key values))) in
      let next = set_values values keys (or_empty written) in
      elim e [
        | none ↦ next
        | some fault ↦ handle (record { line = 0; err = invalid_key key fault }) next
      ]

  -- The part of `Parse` after the loop over the records. The map is nil where there are no values.
  unfoldable pub nest_values : Dict Text → Reading E (Option Fields)
  nest_values [] = read none
  nest_values (v ∷ values) =
      elim (set_values (v ∷ values) (sort_texts (values_keys (v ∷ values))) end) [
        | broken e ↦ broken e
        | read end ↦ read none
        | read (field k w rest) ↦ read (some (field k w rest))
      ]

  unfoldable pub parse_dotenv : Text → Reading E (Option Fields)
  parse_dotenv input =
      elim (admit_records (logical_records input) (record { accepted = []; values = [] })) [
        | broken e ↦ broken e
        | read a ↦ nest_values a.values
      ]
