-- ===== src/Materialize/Workers/Schedules.antt =====
-- config_materialize.go: the schedules of the workers.
use mathlib.Core.Path.{subst}
use confii_go.Base.{
  ◌≡◌, refl, sym, ◌∙◌, ap, ap₂, inl, inr, true, Option, none, some, List, [], ◌∷◌, Text, text_eq,
  text_eq_iff, contains_text, All, arith, Bool-cases,
}
use confii_go.Base.Sort.{sort_texts, contains-sort_texts}
use confii_go.Base.Dict.{Dict, find, put, find-put, find-put_other}
use confii_go.Value.{Value, Fields, null, end, field}
use confii_go.Value.Maps.{keys}
use confii_go.Materialize.{Resolved, resolved, halted}
use confii_go.Materialize.Workers.{
  Event, job_ended, first_cause, Slots, end_job, run_workers, gather,
  apply_secret_hook_map_parallel,
}

-- The entries of a map in the order of the keys.
unfoldable pub in_order : (Text → Value) → List Text → Fields
in_order result [] = end
in_order result (k ∷ ks) = field k (result k) (in_order result ks)

-- Each job ends, and the caller is not canceled.
unfoldable pub ended : {E : Type 0} → List Text → List (Event E)
ended [] = []
ended (k ∷ ks) = job_ended k ∷ ended ks

abbrev pub value_of : {E : Type 0} → Resolved E Value → Value
value_of (resolved v) = v
value_of (halted e) = null

pub All-contains_text {ℓ} :
    (P : Text → Type ℓ) (ks : List Text) → ((k : Text) → contains_text ks k ≡ true → P k) → All P ks
unfolding contains_text
All-contains_text P [] h = tt
All-contains_text P (k ∷ ks) h =
    (h k (ground (arith, text_eq_iff k k)), All-contains_text P ks (λ j c. h j (ground arith)))

gather-in_order :
    (result : Text → Value) (filled : Dict Value) (ks : List Text)
    → All (λ k. find k filled ≡ some (result k)) ks
    → gather filled ks ≡ in_order result ks
unfolding gather in_order
gather-in_order result filled [] h = refl
gather-in_order result filled (k ∷ ks) (e, h) =
    ap₂ (λ (o : Option Value) (rest : Fields). field k (elim o [ none ↦ null | some v ↦ v ]) rest) e
      (gather-in_order result filled ks h)

module _ {E : Type 0} (outcome : Text → Resolved E Value) (result : Text → Value) where
  -- The job of the key ends with the result.
  abbrev pub EndsWell : Text → Type 0
  EndsWell k = outcome k ≡ resolved (result k)

  end_job-resolved :
      (k : Text) (s : Slots E)
      → EndsWell k
      → end_job outcome k s ≡ record s { filled = put k (result k) s.filled }
  unfolding end_job
  end_job-resolved k s = go (outcome k)
    where
      go :
          (o : Resolved E Value)
          → o ≡ resolved (result k)
          → ◌≡◌ {A = Slots E}
              (elim o [
                | resolved v ↦ record s { filled = put k v s.filled }
                | halted e ↦ record s { cause = first_cause e s.cause }
              ])
              (record s { filled = put k (result k) s.filled })
      go (resolved v) h =
          ap (λ (x : Resolved E Value). record s { filled = put k (value_of x) s.filled }) h
      go (halted e) h = cc

  put_right :
      (j k : Text) (d : Dict Value)
      → find k d ≡ some (result k)
      → find k (put j (result j) d) ≡ some (result k)
  put_right j k d h = elim (Bool-cases (text_eq j k)) [
    | inl e ↦
        subst (λ (q : Text). find q (put j (result j) d) ≡ some (result q)) ((text_eq_iff j k).0 e)
          (find-put j (result j) d)
    | inr e ↦ find-put_other j k (result j) d e ∙ h
  ]

  run_workers_stays :
      (k : Text) (schedule : List Text) (s : Slots E)
      → All EndsWell schedule
      → find k s.filled ≡ some (result k)
      → find k (run_workers outcome (ended schedule) s).filled ≡ some (result k)
  unfolding run_workers ended
  run_workers_stays k [] s a h = h
  run_workers_stays k (j ∷ schedule) s (e, a) h =
      run_workers_stays k schedule (end_job outcome j s) a
        (ap (λ (x : Slots E). find k x.filled) (end_job-resolved j s e) ∙ put_right j k s.filled h)

  run_workers_fills :
      (k : Text) (schedule : List Text) (s : Slots E)
      → All EndsWell schedule
      → contains_text schedule k ≡ true
      → find k (run_workers outcome (ended schedule) s).filled ≡ some (result k)
  unfolding run_workers ended contains_text
  run_workers_fills k [] s a c = cc
  run_workers_fills k (j ∷ schedule) s (e, a) c = elim (Bool-cases (text_eq j k)) [
    | inl same ↦ run_workers_stays k schedule (end_job outcome j s) a (
        ap (λ (x : Slots E). find k x.filled) (end_job-resolved j s e)
        ∙ subst (λ (q : Text). find q (put j (result j) s.filled) ≡ some (result q))
            ((text_eq_iff j k).0 same) (find-put j (result j) s.filled))
    | inr other ↦ run_workers_fills k schedule (end_job outcome j s) a (ground arith)
  ]

  run_workers-cause :
      (schedule : List Text) (s : Slots E)
      → All EndsWell schedule
      → (run_workers outcome (ended schedule) s).cause ≡ s.cause
  unfolding run_workers ended
  run_workers-cause [] s a = refl
  run_workers-cause (j ∷ schedule) s (e, a) =
      run_workers-cause schedule (end_job outcome j s) a
      ∙ ap (λ (x : Slots E). x.cause) (end_job-resolved j s e)

  gathered :
      (schedule ks : List Text) (s : Slots E)
      → s.cause ≡ none
      → gather s.filled ks ≡ in_order result ks
      → ◌≡◌ {A = Resolved E Fields}
          (elim s.cause [ some e ↦ halted e | none ↦ resolved (gather s.filled ks) ])
          (resolved (in_order result ks))
  gathered schedule ks s h g = go s.cause h
    where
      go :
          (o : Option E)
          → o ≡ none
          → ◌≡◌ {A = Resolved E Fields}
              (elim o [ some e ↦ halted e | none ↦ resolved (gather s.filled ks) ])
              (resolved (in_order result ks))
      go none x = ap resolved g
      go (some e) x = cc

  -- Where the job of each key has ended, with a value, the workers' result is the map of these values
  -- in the order of the keys, in whatever order the jobs have ended.
  pub apply_secret_hook_map_parallel-in_order :
      (schedule : List Text) (source : Fields)
      → All EndsWell schedule
      → ((k : Text) → contains_text (keys source) k ≡ true → contains_text schedule k ≡ true)
      → apply_secret_hook_map_parallel outcome (ended schedule) source
        ≡ resolved (in_order result (sort_texts (keys source)))
  unfolding apply_secret_hook_map_parallel
  apply_secret_hook_map_parallel-in_order schedule source a covers =
      let s : Slots E =
        run_workers outcome (ended schedule) (record { filled = []; cause = none }) in
      gathered schedule (sort_texts (keys source)) s (run_workers-cause schedule _ a) (
        gather-in_order result s.filled (sort_texts (keys source)) (
          All-contains_text (λ k. find k s.filled ≡ some (result k)) (sort_texts (keys source))
            (λ k c.
              run_workers_fills k schedule _ a
                (covers k (sym (contains-sort_texts k (keys source)) ∙ c)))))
