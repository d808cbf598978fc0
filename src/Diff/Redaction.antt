-- ===== src/Diff/Redaction.antt =====
-- diff/differ.go: redaction and counts.
use confii_go.Base.{◌≡◌, refl, ◌∙◌, ap, ℕ, ◌+◌, ◌⊎◌, false, List, arith}
use confii_go.Base.{Text}
use confii_go.Value.{Value, null}
use confii_go.Diff.{
  Diffs, none_left, config_diff, DiffType, added, removed, modified, Counts, count_type,
}
use confii_go.Diff.{matches_sensitive_path, redact, count_diffs, summary}

-- The two values of every difference, nested ones included, satisfy a predicate of the path.
abbrev pub EveryValue : (Text → Value → Type 0) → Diffs → Type 0
EveryValue P none_left = Unit
EveryValue P (config_diff k t old new path nested rest) =
    P path old × P path new × EveryValue P nested × EveryValue P rest

-- What may stand at a path after a redaction.
abbrev pub IsHidden : List Text → Value → Text → Value → Type 0
IsHidden paths replacement path v =
    (matches_sensitive_path path paths ≡ false) ⊎ (v ≡ null) ⊎ (v ≡ replacement)

count_diffs-redact :
    (diffs : Diffs) (paths : List Text) (replacement : Value) (s : Counts)
    → count_diffs (redact diffs paths replacement) s ≡ count_diffs diffs s
unfolding redact count_diffs
count_diffs-redact none_left paths replacement s = refl
count_diffs-redact (config_diff k t old new path nested rest) paths replacement s =
    count_diffs-redact rest paths replacement (
      count_diffs (redact nested paths replacement)
        (count_type t (record s { total = s.total + 1 })))
    ∙ ap (count_diffs rest) (
        count_diffs-redact nested paths replacement
          (count_type t (record s { total = s.total + 1 })))

-- A redaction changes none of the counts.
pub summary-redact :
    (diffs : Diffs) (paths : List Text) (replacement : Value)
    → summary (redact diffs paths replacement) ≡ summary diffs
unfolding summary
summary-redact diffs paths replacement = count_diffs-redact diffs paths replacement _

abbrev AddsUp : Counts → Type 0
AddsUp s = s.total ≡ s.added_count + s.removed_count + s.modified_count

count_type-AddsUp :
    (t : DiffType) (s : Counts)
    → AddsUp s
    → AddsUp (count_type t (record s { total = s.total + 1 }))
count_type-AddsUp added s h = omega arith
count_type-AddsUp removed s h = omega arith
count_type-AddsUp modified s h = omega arith

count_diffs-AddsUp : (diffs : Diffs) (s : Counts) → AddsUp s → AddsUp (count_diffs diffs s)
unfolding count_diffs
count_diffs-AddsUp none_left s h = h
count_diffs-AddsUp (config_diff k t old new path nested rest) s h =
    count_diffs-AddsUp rest (count_diffs nested (count_type t (record s { total = s.total + 1 }))) (
      count_diffs-AddsUp nested (count_type t (record s { total = s.total + 1 }))
        (count_type-AddsUp t s h))

-- The number of entries, nested ones included. (The source has no such function.)
pub size : Diffs → ℕ
size none_left = 0
size (config_diff k t old new path nested rest) = 1 + size nested + size rest

total-count_diffs :
    (diffs : Diffs) (s : Counts) → (count_diffs diffs s).total ≡ s.total + size diffs
unfolding count_diffs size
total-count_diffs none_left s = omega arith
total-count_diffs (config_diff k t old new path nested rest) s =
    let s1 = count_type t (record s { total = s.total + 1 }) in
    let s2 = count_diffs nested s1 in
    omega (arith, total-count_diffs rest s2, total-count_diffs nested s1, count_type_total t s)
  where
    count_type_total :
        (t : DiffType) (s : Counts)
        → (count_type t (record s { total = s.total + 1 })).total ≡ s.total + 1
    count_type_total added s = refl
    count_type_total removed s = refl
    count_type_total modified s = refl

-- The total counts every difference once, nested ones included, and is the sum of the counts of the
-- three types.
pub summary_total :
    (diffs : Diffs)
    → ((summary diffs).total ≡ size diffs)
      × ((summary diffs).total
          ≡ (summary diffs).added_count
            + (summary diffs).removed_count
            + (summary diffs).modified_count)
unfolding summary
summary_total diffs =
    let zero_counts : Counts = record {
      total = 0;
      added_count = 0;
      removed_count = 0;
      modified_count = 0;
    } in
    (
      omega (arith, total-count_diffs diffs zero_counts),
      count_diffs-AddsUp diffs zero_counts (omega arith),
    )
