-- ===== src/Dotenv/Accepted.antt =====
-- The records of a .env file that are admitted, and godotenv's reading of them.
use mathlib.Core.Path.{subst}
use confii_go.Base.{
  ℕ, Option, none, some, List, [], ◌∷◌, ◌++◌, ◌≡◌, refl, ap, sym, ◌∙◌, ap₂, ◌⊎◌, inl, inr,
  append-nil, append_assoc, All,
}
use confii_go.Base.{Text}
use confii_go.Base.Split.{join}
use confii_go.Base.Dict.{Dict}
use confii_go.Value.{Value}
use confii_go.Dotenv.Records.{
  LogicalRecord, newline, replace_line_ends, logical_records, normalize_double_quoted_tabs,
}
use confii_go.Dotenv.Lines.{texts, logical_records-ne-nil, logical_records-lines}
use confii_go.Dotenv.Reading.{
  Issue, IssueError, unhandled, from_handler, Reading, read, broken, Admitted, handle, after_parse,
  after_check, admit_records,
}

abbrev pub normalized : List Text → List Text
normalized [] = []
normalized (t ∷ ts) = normalize_double_quoted_tabs t ∷ normalized ts

normalized_same :
    (ts : List Text)
    → All (λ (t : Text). normalize_double_quoted_tabs t ≡ t) ts
    → normalized ts ≡ ts
normalized_same [] h = refl
normalized_same (t ∷ ts) (h, hs) = ap₂ (λ x xs. x ∷ xs) h (normalized_same ts hs)

read-injective : {E A : Type 0} (x y : A) → ◌≡◌ {A = Reading E A} (read x) (read y) → x ≡ y
read-injective {E = E} {A = A} x y h = ap from h
  where
    from : Reading E A → A
    from (read z) = z
    from (broken e) = x

-- The values are what the parser gives for the accepted records, joined; at first there are none.
abbrev pub Agrees : (Text → Option (Dict Text)) → Admitted → Type 0
Agrees unmarshal a =
    ((a.accepted ≡ []) × (a.values ≡ [])) ⊎ (unmarshal (join newline a.accepted) ≡ some a.values)

module _ {E : Type 0} (trim_space : Text → Text) (unmarshal : Text → Option (Dict Text))
    (parse_scalar : Text → Value) where
  module _ (on_issue : Option (Issue → Option E)) where
    handle-read :
        (issue : Issue) (next : Reading E Admitted) (b : Admitted)
        → handle trim_space unmarshal parse_scalar on_issue issue next ≡ read b
        → next ≡ read b
    unfolding handle
    handle-read issue next b = branches on_issue
      where
        asked :
            (o : Option E)
            → elim o [ none ↦ next | some e ↦ broken (from_handler e) ] ≡ read b
            → next ≡ read b
        asked none h = h
        asked (some e) h = cc

        branches :
            (o : Option (Issue → Option E))
            → elim o [
              | none ↦ broken (unhandled issue)
              | some handler ↦ elim (handler issue) [
                | none ↦ next
                | some e ↦ broken (from_handler e)
              ]
            ]
              ≡ read b
            → next ≡ read b
        branches none h = cc
        branches (some handler) h = asked (handler issue) h

    after_parse-read :
        (line : ℕ) (skipped : Reading E Admitted) (admitted : Dict Text → Reading E Admitted)
        (o : Option (Dict Text)) (b : Admitted)
        → after_parse trim_space unmarshal parse_scalar on_issue line skipped admitted o ≡ read b
        → (skipped ≡ read b)
          ⊎ ((parsed : Dict Text) × (o ≡ some parsed) × (admitted parsed ≡ read b))
    unfolding after_parse
    after_parse-read line skipped admitted none b h = inl (handle-read _ skipped b h)
    after_parse-read line skipped admitted (some parsed) b h = inr (parsed, refl, h)

    after_check-read :
        (line : ℕ) (skipped parsing : Reading E Admitted) (o : Option IssueError) (b : Admitted)
        → after_check trim_space unmarshal parse_scalar on_issue line skipped parsing o ≡ read b
        → (skipped ≡ read b) ⊎ (parsing ≡ read b)
    unfolding after_check
    after_check-read line skipped parsing none b h = inr h
    after_check-read line skipped parsing (some fault) b h = inl (handle-read _ skipped b h)

    -- Whichever issues the handler lets pass, the values of a file are those that godotenv gives for its
    -- accepted records.
    pub admit_records-Agrees :
        (records : List LogicalRecord) (a b : Admitted)
        → Agrees unmarshal a
        → admit_records trim_space unmarshal parse_scalar on_issue records a ≡ read b
        → Agrees unmarshal b
    unfolding admit_records
    admit_records-Agrees [] a b agrees h = subst (Agrees unmarshal) (read-injective a b h) agrees
    admit_records-Agrees (r ∷ records) a b agrees h = elim (after_check-read _ _ _ _ b h) [
      | inl skipped ↦ admit_records-Agrees records a b agrees skipped
      | inr parsing ↦ elim (after_parse-read _ _ _ _ b parsing) [
        | inl skipped ↦ admit_records-Agrees records a b agrees skipped
        | inr (parsed, e, admitted) ↦ admit_records-Agrees records _ b (inr e) admitted
      ]
    ]

  -- Without a handler, a loop that ends has accepted every record.
  after_parse-admitted :
      (line : ℕ) (skipped : Reading E Admitted) (admitted : Dict Text → Reading E Admitted)
      (o : Option (Dict Text)) (b : Admitted)
      → after_parse trim_space unmarshal parse_scalar none line skipped admitted o ≡ read b
      → (parsed : Dict Text) × (o ≡ some parsed) × (admitted parsed ≡ read b)
  unfolding after_parse handle
  after_parse-admitted line skipped admitted none b h = cc
  after_parse-admitted line skipped admitted (some parsed) b h = (parsed, refl, h)

  after_check-passed :
      (line : ℕ) (skipped parsing : Reading E Admitted) (o : Option IssueError) (b : Admitted)
      → after_check trim_space unmarshal parse_scalar none line skipped parsing o ≡ read b
      → parsing ≡ read b
  unfolding after_check handle
  after_check-passed line skipped parsing none b h = h
  after_check-passed line skipped parsing (some fault) b h = cc

  admit_records-accepted :
      (records : List LogicalRecord) (a b : Admitted)
      → admit_records {E = E} trim_space unmarshal parse_scalar none records a ≡ read b
      → b.accepted ≡ a.accepted ++ normalized (texts records)
  unfolding admit_records
  admit_records-accepted [] a b h =
      ap (λ (x : Admitted). x.accepted) (sym (read-injective a b h)) ∙ sym (append-nil a.accepted)
  admit_records-accepted (r ∷ records) a b h =
      let (parsed, e, admitted) = after_parse-admitted _ _ _ _ b (after_check-passed _ _ _ _ b h) in
      admit_records-accepted records _ b admitted
      ∙ append_assoc a.accepted (normalize_double_quoted_tabs r.text ∷ [])
          (normalized (texts records))

  -- Without a handler, and if no record has an escaped tab inside double quotes, the loop over the
  -- records of a file ends without an error only with the values that godotenv gives for the whole
  -- file, its line ends made line feeds.
  pub admit_records-whole :
      (input : Text) (b : Admitted)
      → All (λ (t : Text). normalize_double_quoted_tabs t ≡ t) (texts (logical_records input))
      → admit_records {E = E} trim_space unmarshal parse_scalar none
          (logical_records input)
          (record { accepted = []; values = [] })
        ≡ read b
      → unmarshal (replace_line_ends input) ≡ some b.values
  admit_records-whole input b plain h =
      elim (admit_records-Agrees none (logical_records input) _ b (inl (refl, refl)) h) [
        | inl (none_accepted, e) ↦
            absurd (logical_records-ne-nil input (sym every_one ∙ none_accepted))
        | inr agrees ↦
            ap unmarshal (sym ((logical_records-lines input).0) ∙ ap (join newline) (sym every_one))
            ∙ agrees
      ]
    where
      every_one : b.accepted ≡ texts (logical_records input)
      every_one = admit_records-accepted (logical_records input) _ b h ∙ normalized_same _ plain
