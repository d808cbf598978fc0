-- ===== src/Sourcetrack/Counts.antt =====
-- The counts of the tracker's statistics.
use confii_go.Base.{◌≡◌, refl, ap, inl, inr, ℕ, suc, ◌+◌, List, [], ◌∷◌, arith}
use confii_go.Base.{Text, length, Bool-cases}
use confii_go.Base.Dict.{Dict, find, put}
use confii_go.Value.{Value}
use confii_go.Diff.{matches_sensitive_path}
use confii_go.Sourcetrack.{
  SourceInfo, Tracker, Statistics, bump, count_sources, get_source_statistics,
}
use confii_go.Sourcetrack.{redact_sources, redact_values}

abbrev pub sum_counts : Dict ℕ → ℕ
sum_counts [] = 0
sum_counts ((k, n) ∷ rest) = n + sum_counts rest

sum_counts-bump : (k : Text) (d : Dict ℕ) → sum_counts (bump k d) ≡ sum_counts d + 1
unfolding bump put find
sum_counts-bump k [] = refl
sum_counts-bump k ((j, n) ∷ rest) =
    let later : sum_counts (bump k rest) ≡ sum_counts rest + 1 = sum_counts-bump k rest in
    ground arith

pub sum_overrides : Dict SourceInfo → ℕ
sum_overrides [] = 0
sum_overrides ((k, info) ∷ rest) = info.override_count + sum_overrides rest

count_sources_sums :
    (d : Dict SourceInfo) (s : Statistics)
    → (sum_counts (count_sources d s).source_counts ≡ sum_counts s.source_counts + length d)
      × (sum_counts (count_sources d s).loader_counts ≡ sum_counts s.loader_counts + length d)
      × ((count_sources d s).total_overrides ≡ s.total_overrides + sum_overrides d)
      × ((count_sources d s).total_keys ≡ s.total_keys)
unfolding count_sources sum_overrides
count_sources_sums [] s = (omega arith, omega arith, omega arith, refl)
count_sources_sums ((k, info) ∷ rest) s =
    let s1 : Statistics = record s {
      source_counts = bump info.source_file s.source_counts;
      loader_counts = bump info.loader_type s.loader_counts;
      total_overrides = s.total_overrides + info.override_count;
    } in
    let (a, b, c, e) = count_sources_sums rest s1 in
    let x = sum_counts-bump info.source_file s.source_counts in
    let y = sum_counts-bump info.loader_type s.loader_counts in
    (omega arith, omega arith, omega arith, e)

-- The counts by source add up to the number of keys, and so do the counts by loader; the total of the
-- overrides is the sum of the records' counts.
pub get_source_statistics_sums :
    (t : Tracker)
    → (sum_counts (get_source_statistics t).source_counts ≡ (get_source_statistics t).total_keys)
      × (sum_counts (get_source_statistics t).loader_counts ≡ (get_source_statistics t).total_keys)
      × ((get_source_statistics t).total_overrides ≡ sum_overrides t.sources)
unfolding get_source_statistics
get_source_statistics_sums t =
    let (a, b, c, e) = count_sources_sums t.sources (record {
      total_keys = length t.sources;
      source_counts = [];
      loader_counts = [];
      total_overrides = 0;
    }) in
    (omega arith, omega arith, omega arith)

count_sources-redact_sources :
    (paths : List Text) (replacement : Value) (d : Dict SourceInfo) (s : Statistics)
    → count_sources (redact_sources paths replacement d) s ≡ count_sources d s
unfolding count_sources redact_sources
count_sources-redact_sources paths replacement [] s = refl
count_sources-redact_sources paths replacement ((k, info) ∷ rest) s =
    let next : Statistics = record s {
      source_counts = bump info.source_file s.source_counts;
      loader_counts = bump info.loader_type s.loader_counts;
      total_overrides = s.total_overrides + info.override_count;
    } in
    let later = count_sources-redact_sources paths replacement rest next in
    elim (Bool-cases (matches_sensitive_path k paths)) [ inl e ↦ rw e later | inr e ↦ rw e later ]

length-redact_sources :
    (paths : List Text) (replacement : Value) (d : Dict SourceInfo)
    → length (redact_sources paths replacement d) ≡ length d
unfolding redact_sources
length-redact_sources paths replacement [] = refl
length-redact_sources paths replacement ((k, info) ∷ rest) =
    ap suc (length-redact_sources paths replacement rest)

-- A redaction changes none of the statistics.
pub get_source_statistics-redact_values :
    (paths : List Text) (replacement : Value) (t : Tracker)
    → get_source_statistics (redact_values paths replacement t) ≡ get_source_statistics t
unfolding get_source_statistics redact_values
get_source_statistics-redact_values paths replacement t =
    rw (length-redact_sources paths replacement t.sources)
      (count_sources-redact_sources paths replacement t.sources _)
