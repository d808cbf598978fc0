-- ===== src/Secretref/RoundTrip.antt =====
-- internal/secretref/reference.go: what is written, read again.
use confii_go.Base.{
  ◌≡◌, refl, ◌∙◌, ap, ℕ, Bool, true, false, not, ◌&&◌, none, some, [], ◌∷◌, ◌++◌, arith, ◌>>=◌,
}
use confii_go.Base.{Text, codes, every}
use confii_go.Base.Split.{is_empty}
use confii_go.Secretref.{
  Reference, is_component, is_alias_start, is_alias, starts_alias, span, expect, match_provider,
  match_version, match_tail, match_reference,
}
use confii_go.Secretref.{
  first_match, parsed, parse_reference, is_plain, validate, write_tail, write_provider,
  write_reference,
}

-- A class is read up to the first byte outside it.
span-append :
    (p : ℕ → Bool) (s : Text) (c : ℕ) (rest : Text)
    → every p s ≡ true
    → p c ≡ false
    → span p (s ++ (c ∷ rest)) ≡ (s, c ∷ rest)
unfolding span
span-append p [] c rest h out = rw out refl
span-append p (d ∷ s) c rest h out =
    let ih = span-append p s c rest (ground arith) out in
    let here : p d ≡ true = ground arith in rw here (ap (λ r. (d ∷ r.0, r.1)) ih)

match_provider-write_provider :
    (s rest : Text)
    → (not (is_empty s) && not (starts_alias s && every is_alias s)) ≡ false
    → match_provider (write_provider s ++ (b':' ∷ rest)) ≡ some (s, b':' ∷ rest)
unfolding match_provider write_provider
match_provider-write_provider [] rest h = refl
match_provider-write_provider (c ∷ s) rest h =
    let all : every is_alias (c ∷ s) ≡ true = ground arith in
    let first : is_alias_start c ≡ true = ground arith in
    rw (span-append is_alias (c ∷ s) b':' rest all (unfold is_alias in refl), match_provider)
      (rw first refl)

match_version_written :
    (c : ℕ) (v : Text)
    → is_plain (c ∷ v) ≡ true
    → match_version (b':' ∷ ((c ∷ v) ++ (b'}' ∷ []))) ≡ some (c ∷ v, [])
unfolding match_version expect
match_version_written c v h =
    rw (span-append is_component (c ∷ v) b'}' [] h refl, match_version) refl

match_tail-write_tail :
    (f v : Text)
    → is_plain f ≡ true
    → is_plain v ≡ true
    → match_tail (write_tail f v) ≡ some (f, v, [])
unfolding match_tail write_tail match_version span expect
match_tail-write_tail [] [] hf hv = refl
match_tail-write_tail [] (d ∷ v) hf hv =
    ap (λ m. m >>= λ r. some ([], r.0, r.1)) (match_version_written d v hv)
match_tail-write_tail (c ∷ f) [] hf hv =
    rw (span-append is_component (c ∷ f) b'}' [] hf refl, match_tail) refl
match_tail-write_tail (c ∷ f) (d ∷ v) hf hv =
    rw (span-append is_component (c ∷ f) b':' ((d ∷ v) ++ (b'}' ∷ [])) hf refl, match_tail)
      (ap (λ m. m >>= λ r. some (c ∷ f, r.0, r.1)) (match_version_written d v hv))

-- What `validate` accepts.
record IsWritable (r : Reference) : Type 0 where
  provider_ok :
      (not (is_empty r.provider) && not (starts_alias r.provider && every is_alias r.provider))
      ≡ false
  key_named : is_empty r.key ≡ false
  key_plain : is_plain r.key ≡ true
  field_plain : is_plain r.field_name ≡ true
  version_plain : is_plain r.version ≡ true

IsWritable-validate : (r : Reference) → validate r ≡ none → IsWritable r
unfolding validate
IsWritable-validate r h = record {
  provider_ok = ground arith;
  key_named = ground arith;
  key_plain = ground arith;
  field_plain = ground arith;
  version_plain = ground arith;
}

-- A component is followed by a delimiter.
span-write_tail :
    (key f v : Text)
    → is_plain key ≡ true
    → span is_component (key ++ write_tail f v) ≡ (key, write_tail f v)
unfolding write_tail
span-write_tail key [] [] h = span-append is_component key b'}' [] h refl
span-write_tail key [] (d ∷ v) h = span-append is_component key b':' _ h refl
span-write_tail key (c ∷ f) [] h = span-append is_component key b':' _ h refl
span-write_tail key (c ∷ f) (d ∷ v) h = span-append is_component key b':' _ h refl

write_reference_writable :
    (r : Reference)
    → validate r ≡ none
    → write_reference r
      ≡ codes "${secret"
        ++ (write_provider r.provider
            ++ (codes ":" ++ (r.key ++ write_tail r.field_name r.version)))
unfolding write_reference
write_reference_writable r h = rw (h, write_reference) refl

match_reference_written :
    (r : Reference)
    → IsWritable r
    → match_reference (
        codes "${secret"
        ++ (write_provider r.provider
            ++ (codes ":" ++ (r.key ++ write_tail r.field_name r.version))))
      ≡ some (r, [])
unfolding match_reference expect
match_reference_written r h =
    rw
      (match_provider-write_provider r.provider (r.key ++ write_tail r.field_name r.version)
        h.provider_ok)
      (rw (span-write_tail r.key r.field_name r.version h.key_plain) (
        rw (match_tail-write_tail r.field_name r.version h.field_plain h.version_plain)
          (rw h.key_named refl)))

first_match_here :
    (c : ℕ) (s : Text) (r : Reference)
    → match_reference (c ∷ s) ≡ some (r, [])
    → first_match (c ∷ s) ≡ some (0, r, [])
unfolding first_match
first_match_here c s r h = rw (h, first_match) refl

parse_reference_here :
    (c : ℕ) (s : Text) (r : Reference)
    → match_reference (c ∷ s) ≡ some (r, [])
    → parse_reference (c ∷ s) ≡ parsed r
unfolding parse_reference
parse_reference_here c s r h = rw (first_match_here c s r h, parse_reference) refl

-- A reference that `Validate` accepts is parsed back from what `String` writes.
pub parse_reference-write_reference :
    (r : Reference) → validate r ≡ none → parse_reference (write_reference r) ≡ parsed r
parse_reference-write_reference r h =
    ap parse_reference (write_reference_writable r h)
    ∙ parse_reference_here _ _ r (match_reference_written r (IsWritable-validate r h))
