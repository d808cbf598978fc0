-- ===== src/Sourcetrack/History.antt =====
-- sourcetrack/tracker.go: the records that tracking and redaction leave.
use mathlib.Core.Option.{some-injective}
use confii_go.Base.{
  ◌≡◌, refl, sym, ◌∙◌, ap, inl, inr, ℕ, ◌+◌, Bool, true, false, some, List, [], ◌∷◌, ◌++◌, arith,
}
use confii_go.Base.{Text, text_eq, text_eq_iff, length, if◌then◌else◌, Bool-cases, Option-cases}
use confii_go.Base.Int.{ℤ}
use confii_go.Base.Dict.{Dict, find, put}
use confii_go.Value.{Value, Fields}
use confii_go.Value.Equality.{deep_equal}
use confii_go.Diff.{matches_sensitive_path}
use confii_go.Sourcetrack.{
  SourceInfo, OverrideEntry, Tracker, track_value, track_config, move_origin, override,
}
use confii_go.Sourcetrack.{redact_history, redact_sources, redact_values}
use confii_go.Sourcetrack.Origins.{track_config_keeps}

-- A record stands under its own key, and its history has one entry for each override if the tracker
-- is in debug mode, and none otherwise.
abbrev pub IsRecord : Bool → Text → SourceInfo → Type 0
IsRecord debug k info =
    (info.key ≡ k) × (length info.history ≡ (if debug then info.override_count else 0))

abbrev pub AreRecords : Bool → Dict SourceInfo → Type 0
AreRecords debug [] = Unit
AreRecords debug ((k, info) ∷ rest) = IsRecord debug k info × AreRecords debug rest

abbrev pub IsTracked : Tracker → Type 0
IsTracked t = AreRecords t.debug_mode t.sources

AreRecords-put :
    (debug : Bool) (k : Text) (info : SourceInfo) (d : Dict SourceInfo)
    → IsRecord debug k info
    → AreRecords debug d
    → AreRecords debug (put k info d)
unfolding put
AreRecords-put debug k info [] h hs = (h, tt)
AreRecords-put debug k info ((j, old) ∷ rest) h hs = elim (Bool-cases (text_eq j k)) [
  | inl e ↦ let same : k ≡ j = sym ((text_eq_iff j k).0 e) in rw e ((h.0 ∙ same, h.1), hs.1)
  | inr e ↦ rw e (hs.0, AreRecords-put debug k info rest h hs.1)
]

IsRecord-find :
    (debug : Bool) (k : Text) (info : SourceInfo) (d : Dict SourceInfo)
    → AreRecords debug d
    → find k d ≡ some info
    → IsRecord debug k info
unfolding find
IsRecord-find debug k info [] hs e = cc
IsRecord-find debug k info ((j, old) ∷ rest) hs e = elim (Bool-cases (text_eq j k)) [
  | inl here ↦
      let same : j ≡ k = (text_eq_iff j k).0 here in
      let it : old ≡ info = some-injective old info (rw here at e) in
      rw (sym it) (hs.0.0 ∙ same, hs.0.1)
  | inr there ↦ IsRecord-find debug k info rest hs.1 (rw there at e)
]

length-snoc :
    (hs : List OverrideEntry) (h : OverrideEntry) → length (hs ++ (h ∷ [])) ≡ length hs + 1
length-snoc [] h = refl
length-snoc (x ∷ hs) h = omega (arith, length-snoc hs h)

override-IsRecord :
    (debug : Bool) (k : Text) (info : SourceInfo) (value : Value)
    → IsRecord debug k info
    → IsRecord debug k (override debug info value)
unfolding override
override-IsRecord true k info value h = (h.0, length-snoc info.history _ ∙ ap (λ n. n + 1) h.1)
override-IsRecord false k info value h = h

-- Each write keeps the records in order.
pub track_value-IsTracked :
    (key : Text) (v : Value) (source loader environment : Text) (line : ℤ) (now : ℕ) (t : Tracker)
    → IsTracked t
    → IsTracked (track_value key v source loader environment line now t)
unfolding track_value move_origin
track_value-IsTracked key v source loader environment line now t h =
    elim (Option-cases (find key t.sources)) [
      | inl e ↦
          rw (e, track_value)
            (AreRecords-put t.debug_mode key _ t.sources (refl, empty t.debug_mode 0) h)
      | inr (info, e) ↦
          let old = IsRecord-find t.debug_mode key info t.sources h e in
          rw (e, track_value)
            (elim (Bool-cases (deep_equal info.value v)) [
              | inl same ↦ rw same (AreRecords-put t.debug_mode key _ t.sources old h)
              | inr differ ↦ rw differ (
                  AreRecords-put t.debug_mode key _ t.sources
                    (override-IsRecord t.debug_mode key info v old) h)
            ])
    ]
  where
    empty : (debug : Bool) (n : ℕ) → n ≡ (if debug then n else n)
    empty true n = refl
    empty false n = refl

track_value-debug_mode :
    (key : Text) (v : Value) (source loader environment : Text) (line : ℤ) (now : ℕ) (t : Tracker)
    → (track_value key v source loader environment line now t).debug_mode ≡ t.debug_mode
unfolding track_value
track_value-debug_mode key v source loader environment line now t =
    elim (Option-cases (find key t.sources)) [
      | inl e ↦ rw (e, track_value) refl
      | inr (info, e) ↦ rw (e, track_value) refl
    ]

length-redact_history :
    (replacement : Value) (hs : List OverrideEntry)
    → length (redact_history replacement hs) ≡ length hs
unfolding redact_history
length-redact_history replacement [] = refl
length-redact_history replacement (h ∷ hs) = omega (arith, length-redact_history replacement hs)

redact_sources-AreRecords :
    (debug : Bool) (paths : List Text) (replacement : Value) (d : Dict SourceInfo)
    → AreRecords debug d
    → AreRecords debug (redact_sources paths replacement d)
unfolding redact_sources
redact_sources-AreRecords debug paths replacement [] h = tt
redact_sources-AreRecords debug paths replacement ((k, info) ∷ rest) h =
    let later = redact_sources-AreRecords debug paths replacement rest h.1 in
    elim (Bool-cases (matches_sensitive_path k paths)) [
      | inl e ↦ rw e ((h.0.0, length-redact_history replacement info.history ∙ h.0.1), later)
      | inr e ↦ rw e (h.0, later)
    ]

-- If every record stands under its own key with a history of the length of its count of overrides
-- (of none, without debug mode), then so it is after a configuration is tracked.
pub track_config-IsTracked :
    (source loader environment : Text) (positions : Text → ℤ) (now : Text → ℕ) (m : Fields)
    (prefix : Text) (t : Tracker)
    → IsTracked t
    → IsTracked (track_config source loader environment positions now m prefix t)
track_config-IsTracked source loader environment positions now =
    track_config_keeps source loader environment positions now IsTracked (λ path v t h.
      track_value-IsTracked path v source loader environment (positions path) (now path) t h)

-- The values of a history are all the replacement.
abbrev pub AllReplaced : Value → List OverrideEntry → Type 0
AllReplaced replacement [] = Unit
AllReplaced replacement (h ∷ hs) = (h.value ≡ replacement) × AllReplaced replacement hs

redact_history-AllReplaced :
    (replacement : Value) (hs : List OverrideEntry)
    → AllReplaced replacement (redact_history replacement hs)
unfolding redact_history
redact_history-AllReplaced replacement [] = tt
redact_history-AllReplaced replacement (h ∷ hs) = (refl, redact_history-AllReplaced replacement hs)

redact_sources_hides :
    (paths : List Text) (replacement : Value) (d : Dict SourceInfo) (k : Text) (info : SourceInfo)
    → matches_sensitive_path k paths ≡ true
    → find k (redact_sources paths replacement d) ≡ some info
    → (info.value ≡ replacement) × AllReplaced replacement info.history
unfolding redact_sources find
redact_sources_hides paths replacement [] k info m h = cc
redact_sources_hides paths replacement ((j, old) ∷ rest) k info m h =
    elim (Bool-cases (text_eq j k)) [
      | inl here ↦
          let same : j ≡ k = (text_eq_iff j k).0 here in
          let hidden : matches_sensitive_path j paths ≡ true =
            ap (λ x. matches_sensitive_path x paths) same ∙ m in
          let it = some-injective _ info (rw hidden at (rw here at h)) in
          rw (sym it) (refl, redact_history-AllReplaced replacement old.history)
      | inr there ↦ redact_sources_hides paths replacement rest k info m (rw there at h)
    ]

-- After a redaction the record of a key at, above or below a sensitive path holds the replacement and
-- no other value, now and in its history.
pub redact_values_hides :
    (paths : List Text) (replacement : Value) (t : Tracker) (k : Text) (info : SourceInfo)
    → matches_sensitive_path k paths ≡ true
    → find k (redact_values paths replacement t).sources ≡ some info
    → (info.value ≡ replacement) × AllReplaced replacement info.history
unfolding redact_values
redact_values_hides paths replacement t k info m h =
    redact_sources_hides paths replacement t.sources k info m h
