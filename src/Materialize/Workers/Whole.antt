-- ===== src/Materialize/Workers/Whole.antt =====
-- config_materialize.go: the workers give the whole map or none.
use mathlib.Core.Path.{subst}
use confii_go.Base.{
  ◌≡◌, ◌≢◌, refl, sym, ◌∙◌, ap, true, Option, none, some, List, [], ◌∷◌, Text, contains_text, All,
  if-true, inl, inr, text_eq, text_eq_iff, Bool-cases, arith,
}
use confii_go.Base.Sort.{sort_texts, contains-sort_texts}
use confii_go.Base.Dict.{put}
use confii_go.Value.{Value, Fields, end}
use confii_go.Value.Maps.{lookup, keys}
use confii_go.Materialize.{Resolved, resolved, halted}
use confii_go.Materialize.Workers.{
  Event, job_ended, caller_canceled, first_cause, Slots, gather, end_job, run_workers,
  apply_secret_hook_map_parallel,
}
use confii_go.Materialize.Workers.Schedules.{
  ended, value_of, EndsWell, apply_secret_hook_map_parallel-in_order,
}
use confii_go.Materialize.Workers.Agreement.{in_order-lookup}

-- The keys whose jobs end.
unfoldable pub jobs_of : {E : Type 0} → List (Event E) → List Text
jobs_of [] = []
jobs_of (job_ended k ∷ events) = k ∷ jobs_of events
jobs_of (caller_canceled e ∷ events) = jobs_of events

-- The causes with which the caller is canceled.
unfoldable pub cancellations : {E : Type 0} → List (Event E) → List E
cancellations [] = []
cancellations (job_ended k ∷ events) = cancellations events
cancellations (caller_canceled e ∷ events) = e ∷ cancellations events

not-first_cause : {E : Type 0} (e : E) (o : Option E) → first_cause e o ≢ none
not-first_cause e none h = cc
not-first_cause e (some first) h = cc

All-at {ℓ} :
    (P : Text → Type ℓ) (ks : List Text) (k : Text) → All P ks → contains_text ks k ≡ true → P k
unfolding contains_text
All-at P [] k a h = cc
All-at P (j ∷ ks) k (x, a) h = elim (Bool-cases (text_eq j k)) [
  | inl same ↦ subst P ((text_eq_iff j k).0 same) x
  | inr other ↦ All-at P ks k a (ground arith)
]

abbrev map_of : {E : Type 0} → Resolved E Fields → Fields
map_of (resolved m) = m
map_of (halted e) = end

module _ {E : Type 0} (outcome : Text → Resolved E Value) where
  abbrev result : Text → Value
  result k = value_of (outcome k)

  end_job-cause :
      (k : Text) (s : Slots E)
      → (end_job outcome k s).cause ≡ none
      → (s.cause ≡ none) × EndsWell outcome result k
  unfolding end_job
  end_job-cause k s h = go (outcome k) h
    where
      go :
          (o : Resolved E Value)
          → (elim o as (λ x. Slots E) [
            | resolved v ↦ record s { filled = put k v s.filled }
            | halted e ↦ record s { cause = first_cause e s.cause }
          ]).cause
            ≡ none
          → (s.cause ≡ none) × (o ≡ resolved (value_of o))
      go (resolved v) x = (x, refl)
      go (halted e) x = absurd (not-first_cause e s.cause x)

  -- A run without a cause has neither a cancellation of the caller nor a job that fails.
  run_workers_quiet :
      (events : List (Event E)) (s : Slots E)
      → (run_workers outcome events s).cause ≡ none
      → (s.cause ≡ none)
        × (events ≡ ended (jobs_of events))
        × (cancellations events ≡ [])
        × All (EndsWell outcome result) (jobs_of events)
  unfolding run_workers jobs_of ended cancellations
  run_workers_quiet [] s h = (h, refl, refl, tt)
  run_workers_quiet (job_ended k ∷ events) s h =
      let (a, b, c, d) = run_workers_quiet events (end_job outcome k s) h in
      let (x, y) = end_job-cause k s a in
      (x, ap (λ (es : List (Event E)). job_ended k ∷ es) b, c, (y, d))
  run_workers_quiet (caller_canceled e ∷ events) s h =
      let (a, _, _, _) = run_workers_quiet events (record s { cause = first_cause e s.cause }) h in
      absurd (not-first_cause e s.cause a)

  resolved-cause :
      (o : Option E) (m m' : Fields)
      → ◌≡◌ {A = Resolved E Fields} (elim o [ some e ↦ halted e | none ↦ resolved m ]) (resolved m')
      → o ≡ none
  resolved-cause none m m' h = refl
  resolved-cause (some e) m m' h = cc

  -- Where the job of each key has ended and the workers give a map, the caller was not canceled, and the
  -- map has under each key of the source the value that the job of this key has given.
  pub apply_secret_hook_map_parallel-whole :
      (events : List (Event E)) (source m' : Fields) (k : Text)
      → ((j : Text)
          → contains_text (keys source) j ≡ true
          → contains_text (jobs_of events) j ≡ true)
      → contains_text (keys source) k ≡ true
      → apply_secret_hook_map_parallel outcome events source ≡ resolved m'
      → (v : Value) × (outcome k ≡ resolved v)
        × (lookup k m' ≡ some v)
        × (cancellations events ≡ [])
  unfolding apply_secret_hook_map_parallel
  apply_secret_hook_map_parallel-whole events source m' k covers there h =
      let ks = sort_texts (keys source) in
      let s : Slots E = run_workers outcome events (record { filled = []; cause = none }) in
      let (_, only_jobs, calm, well) =
        run_workers_quiet events (record { filled = []; cause = none })
          (resolved-cause s.cause (gather s.filled ks) m' h) in
      let ordered =
        ap (λ (es : List (Event E)). apply_secret_hook_map_parallel outcome es source) only_jobs
        ∙ apply_secret_hook_map_parallel-in_order outcome result (jobs_of events) source well
            covers in
      (
        result k,
        All-at (EndsWell outcome result) (jobs_of events) k well (covers k there),
        ap (lookup k) (sym (ap map_of (sym ordered ∙ h)))
            ∙ in_order-lookup k result ks
            ∙ if-true _ _ _ (contains-sort_texts k (keys source) ∙ there),
        calm,
      )
