-- ===== src/Secretref.antt =====
-- internal/secretref/reference.go: the grammar of secret references.
-- `pattern` is written out as a matcher. The classes of a provider, key, field and version leave out
-- the delimiter that follows them, so a match at a place has one form.
pub mod RoundTrip
use confii_go.Base.{
  ℕ, zero, suc, ◌+◌, ◌-◌, Bool, true, false, not, ◌&&◌, ◌||◌, Option, none, some, List, [], ◌∷◌,
  ◌++◌, ◌>>=◌,
}
use confii_go.Base.{Text, codes, length, every, ltb, leb, ◌==◌, if◌then◌else◌}
use confii_go.Base.Split.{is_empty}

pub record Reference : Type 0 where
  pub provider : Text
  pub key : Text
  pub field_name : Text
  pub version : Text

-- `[^}:]`
abbrev pub is_component : ℕ → Bool
is_component c = not (c == b':') && not (c == b'}')

abbrev within : ℕ → ℕ → ℕ → Bool
within low high c = leb low c && leb c high

-- `[A-Za-z0-9]`
abbrev pub is_alias_start : ℕ → Bool
is_alias_start c = within b'A' b'Z' c || within b'a' b'z' c || within b'0' b'9' c

-- `[A-Za-z0-9_.-]`
unfoldable pub is_alias : ℕ → Bool
is_alias c = is_alias_start c || c == b'_' || c == b'.' || c == b'-'

-- The longest part of the text in a class, and the rest.
unfoldable pub span : (ℕ → Bool) → Text → Text × Text
span p [] = ([], [])
span p (c ∷ s) = let (taken, rest) = span p s in if p c then (c ∷ taken, rest) else ([], c ∷ s)

unfoldable pub expect : Text → Text → Option Text
expect [] s = some s
expect (d ∷ p) [] = none
expect (d ∷ p) (c ∷ s) = let later = expect p s in if c == d then later else none

abbrev pub starts_alias : Text → Bool
starts_alias [] = false
starts_alias (c ∷ s) = is_alias_start c

-- `(?:@([A-Za-z0-9][A-Za-z0-9_.-]*))?`
unfoldable pub match_provider : Text → Option (Text × Text)
match_provider [] = some ([], [])
match_provider (c ∷ s) =
    let (alias, rest) = span is_alias s in
    if c == b'@'
    then (if starts_alias alias then some (alias, rest) else none)
    else some ([], c ∷ s)

-- `(?::([^}:]+))?\}`, after the field.
unfoldable pub match_version : Text → Option (Text × Text)
match_version [] = none
match_version (c ∷ s) =
    let (version, rest) = span is_component s in
    if c == b'}'
    then some ([], s)
    else if c == b':' && not (is_empty version)
    then (expect (codes "}") rest >>= λ after. some (version, after))
    else none

-- `(?::([^}:]*))?(?::([^}:]+))?\}`
unfoldable pub match_tail : Text → Option (Text × Text × Text)
match_tail [] = none
match_tail (c ∷ s) =
    let (part, rest) = span is_component s in
    if c == b'}'
    then some ([], [], s)
    else if c == b':'
    then (match_version rest >>= λ r. some (part, r.0, r.1))
    else none

-- `pattern` at the start of a text: the groups, as `FromMatch` reads them, and the text after it.
unfoldable pub match_reference : Text → Option (Reference × Text)
match_reference s = do
  head ← expect (codes "${secret") s
  (provider, after_provider) ← match_provider head
  body ← expect (codes ":") after_provider
  let (key, after_key) = span is_component body
  (field_name, version, rest) ← match_tail after_key
  if is_empty key
      then none
      else some (
        record { provider = provider; key = key; field_name = field_name; version = version },
        rest,
      )

unfoldable pub contains_reference : Text → Bool
contains_reference [] = false
contains_reference (c ∷ s) =
    let later = contains_reference s in
    elim (match_reference (c ∷ s)) [ none ↦ later | some r ↦ true ]

-- The matches from left to right. The number counts the bytes of the last match that are to come.
unfoldable pub scan : ℕ → Text → List Reference
scan skip [] = []
scan (suc skip) (c ∷ s) = scan skip s
scan zero (c ∷ s) = elim (match_reference (c ∷ s)) [
  | none ↦ scan 0 s
  | some (r, rest) ↦ r ∷ scan (length s - length rest) s
]

unfoldable pub find_references : Text → List Reference
find_references s = scan 0 s

pub data ParseError : Type 0 where
  not_a_reference : ParseError
  surrounding_text : ParseError

pub data Parsed : Type 0 where
  parsed : Reference → Parsed
  unparsed : ParseError → Parsed

-- The leftmost match: the number of bytes before it, the reference and the text after it.
unfoldable pub first_match : Text → Option (ℕ × Reference × Text)
first_match [] = none
first_match (c ∷ s) =
    let later = first_match s in
    elim (match_reference (c ∷ s)) [
      | some (r, rest) ↦ some (0, r, rest)
      | none ↦ later >>= λ m. some (m.0 + 1, m.1, m.2)
    ]

unfoldable pub parse_reference : Text → Parsed
parse_reference s = elim (first_match s) [
  | none ↦ unparsed not_a_reference
  | some (start, r, rest) ↦
      if start == 0 && is_empty rest then parsed r else unparsed surrounding_text
]

pub data Unrepresentable : Type 0 where
  bad_provider : Unrepresentable
  empty_key : Unrepresentable
  bad_component : Text → Unrepresentable

-- `strings.ContainsAny(value, ":}")` is false.
abbrev pub is_plain : Text → Bool
is_plain = every is_component

unfoldable pub validate : Reference → Option Unrepresentable
validate r =
    if not (is_empty r.provider) && not (starts_alias r.provider && every is_alias r.provider)
    then some bad_provider
    else if is_empty r.key
    then some empty_key
    else if not (is_plain r.key)
    then some (bad_component (codes "key"))
    else if not (is_plain r.field_name)
    then some (bad_component (codes "field"))
    else if not (is_plain r.version)
    then some (bad_component (codes "version"))
    else none

abbrev pub reason : Unrepresentable → Text
reason bad_provider =
    codes
      "provider must start with a letter or digit and then hold only letters, digits, '_', '.', and '-'"
reason empty_key = codes "key must not be empty"
reason (bad_component name) = name ++ codes " must not contain ':' or '}'"

-- The part of a reference after its key.
unfoldable pub write_tail : Text → Text → Text
write_tail field_name version =
    if not (is_empty field_name) && not (is_empty version)
    then codes ":" ++ (field_name ++ (codes ":" ++ (version ++ codes "}")))
    else if not (is_empty field_name)
    then codes ":" ++ (field_name ++ codes "}")
    else if not (is_empty version)
    then codes "::" ++ (version ++ codes "}")
    else codes "}"

unfoldable pub write_provider : Text → Text
write_provider [] = []
write_provider (c ∷ s) = codes "@" ++ (c ∷ s)

unfoldable pub write_reference : Reference → Text
write_reference r = elim (validate r) [
  | some e ↦ codes "%!secret(" ++ (reason e ++ codes ")")
  | none ↦
      codes "${secret"
      ++ (write_provider r.provider ++ (codes ":" ++ (r.key ++ write_tail r.field_name r.version)))
]

unfoldable pub marshal_text : Reference → Option Text
marshal_text r = elim (validate r) [ some e ↦ none | none ↦ some (write_reference r) ]
