-- ===== src/Load/Hybrid.antt =====
-- The strategy "hybrid": the conflicts of a load, from what its loaders contributed.
use confii_go.Base.{
  Bool, true, false, not, ◌&&◌, ◌||◌, Option, none, some, List, [], ◌∷◌, ◌≡◌, refl, ap, sym, ◌∙◌,
  ap₂,
}
use confii_go.Base.{Text, contains_text, if◌then◌else◌}
use confii_go.Base.Dict.{find}
use confii_go.Value.{Fields}
use confii_go.Merge.{merge_all}
use confii_go.Sourcetrack.{Tracker}
use confii_go.Load.Strategy.{
  EnvironmentStrategy, auto, sectioned, named_files, hybrid, EnvironmentConflictPolicy,
  conflict_error, conflict_warn, conflict_last_wins,
}
use confii_go.Load.Conflicts.{
  Conflict, has_sectioned, has_named, writers_of, mixed_environment_conflicts,
}
use confii_go.Load.Mixed.{conflict_keys, contains-mixed_environment_conflicts}
use confii_go.Load.Turns.{Slot, LoadError, hybrid_incomplete, merge_panicked}
use confii_go.Load.Plan.{LoadSettings, Loading, loaded, aborted, Progress, Turns}
use confii_go.Load.Selected.{
  Result, Loaded, first_progress, with_result, finish_load, conclude, merged_env, check_hybrid,
  on_conflicts, after_loop, load_slots, effective_strategy,
}
use confii_go.Load.Repeated.{loaded-injective}
use confii_go.Load.Writers.{
  contributions, some_section_writes, some_file_writes, Written, run_turns-Written,
}

module _ (st : LoadSettings) where
  conclude-conflicts :
      (merged env_config : Fields) (p : Progress) (result : Result)
      → conclude st merged env_config p ≡ loaded result
      → (w : Option (List Conflict)) × (check_hybrid st.strategy st.conflict_policy p
          ≡ loaded (result.source_plan.conflicts, w))
  unfolding conclude
  conclude-conflicts merged env_config p result h =
      branches (check_hybrid st.strategy st.conflict_policy p) h
    where
      plan_of : List Conflict → Option (List Conflict) → Result
      plan_of conflicts warned = record {
        merged = merged;
        env_config = env_config;
        tracker = p.tracker;
        source_plan = record {
          environment = st.env;
          plan_strategy = effective_strategy st.strategy p.saw_sectioned;
          plan_policy = st.conflict_policy;
          layers = p.plan_layers;
          conflicts = conflicts;
        };
        conflict_warning = warned;
      }

      branches :
          (x : Loading (List Conflict × Option (List Conflict)))
          → elim x [ aborted e ↦ aborted e | loaded (cs, w) ↦ loaded (plan_of cs w) ]
            ≡ loaded result
          → (w : Option (List Conflict)) × (x ≡ loaded (result.source_plan.conflicts, w))
      branches (aborted e) k = cc
      branches (loaded (cs, w)) k =
          (w, ap (λ (r : Result). loaded (r.source_plan.conflicts, w)) (loaded-injective _ _ k))

  finish_load-conflicts :
      (p : Progress) (result : Result)
      → finish_load st p ≡ loaded result
      → (w : Option (List Conflict)) × (check_hybrid st.strategy st.conflict_policy p
          ≡ loaded (result.source_plan.conflicts, w))
  unfolding finish_load
  finish_load-conflicts p result h = no_error p.plan_error h
    where
      resolved :
          (m : Fields) (o : Option Fields)
          → elim o [ none ↦ aborted merge_panicked | some e ↦ conclude st m e p ] ≡ loaded result
          → (w : Option (List Conflict)) × (check_hybrid st.strategy st.conflict_policy p
              ≡ loaded (result.source_plan.conflicts, w))
      resolved m none k = cc
      resolved m (some e) k = conclude-conflicts m e p result k

      merged :
          (o : Option Fields)
          → elim o [
            | none ↦ aborted merge_panicked
            | some m ↦ elim (merged_env st m p) [
              | none ↦ aborted merge_panicked
              | some e ↦ conclude st m e p
            ]
          ]
            ≡ loaded result
          → (w : Option (List Conflict)) × (check_hybrid st.strategy st.conflict_policy p
              ≡ loaded (result.source_plan.conflicts, w))
      merged none k = cc
      merged (some m) k = resolved m (merged_env st m p) k

      no_error :
          (o : Option LoadError)
          → elim o [
            | some e ↦ aborted e
            | none ↦ elim (merge_all st.merger p.configs) [
              | none ↦ aborted merge_panicked
              | some m ↦ elim (merged_env st m p) [
                | none ↦ aborted merge_panicked
                | some e ↦ conclude st m e p
              ]
            ]
          ]
            ≡ loaded result
          → (w : Option (List Conflict)) × (check_hybrid st.strategy st.conflict_policy p
              ≡ loaded (result.source_plan.conflicts, w))
      no_error (some e) k = cc
      no_error none k = merged (merge_all st.merger p.configs) k

listed :
    (found : List Conflict) (v : Option (List Conflict)) (cs : List Conflict)
    (w : Option (List Conflict))
    → ◌≡◌ {A = Loading (List Conflict × Option (List Conflict))}
        (loaded (found, v))
        (loaded (cs, w))
    → cs ≡ found
listed found v cs w h =
    sym (ap (λ (x : List Conflict × Option (List Conflict)). x.0) (loaded-injective _ _ h))

on_conflicts-judged :
    (found : List Conflict) (policy : EnvironmentConflictPolicy) (cs : List Conflict)
    (w : Option (List Conflict))
    → ◌≡◌ {A = Loading (List Conflict × Option (List Conflict))}
        (elim (on_conflicts policy found) [ aborted f ↦ aborted f | loaded v ↦ loaded (found, v) ])
        (loaded (cs, w))
    → (cs ≡ found) × (policy ≡ conflict_error → cs ≡ [])
unfolding on_conflicts
on_conflicts-judged [] conflict_error cs w h = let e = listed [] none cs w h in (e, λ k. e)
on_conflicts-judged [] conflict_warn cs w h = let e = listed [] none cs w h in (e, λ k. e)
on_conflicts-judged [] conflict_last_wins cs w h = let e = listed [] none cs w h in (e, λ k. e)
on_conflicts-judged (c ∷ found) conflict_error cs w h = cc
on_conflicts-judged (c ∷ found) conflict_warn cs w h = (listed _ _ cs w h, λ k. cc)
on_conflicts-judged (c ∷ found) conflict_last_wins cs w h = (listed _ _ cs w h, λ k. cc)

-- Under "hybrid" the plan lists the conflicts of the writers, and none under the policy "error".
check_hybrid-conflicts :
    (s : EnvironmentStrategy) (policy : EnvironmentConflictPolicy) (p : Progress)
    (cs : List Conflict) (w : Option (List Conflict))
    → s ≡ hybrid
    → check_hybrid s policy p ≡ loaded (cs, w)
    → (cs ≡ mixed_environment_conflicts p.writers) × (policy ≡ conflict_error → cs ≡ [])
unfolding check_hybrid
check_hybrid-conflicts auto policy p cs w e h = cc
check_hybrid-conflicts sectioned policy p cs w e h = cc
check_hybrid-conflicts named_files policy p cs w e h = cc
check_hybrid-conflicts hybrid policy p cs w e h =
    complete (not p.saw_named || not p.saw_sectioned) h
  where
    complete :
        (b : Bool)
        → ◌≡◌ {A = Loading (List Conflict × Option (List Conflict))}
            (if b
              then aborted hybrid_incomplete
              else elim (on_conflicts policy (mixed_environment_conflicts p.writers)) [
                | aborted f ↦ aborted f
                | loaded v ↦ loaded (mixed_environment_conflicts p.writers, v)
              ])
            (loaded (cs, w))
        → (cs ≡ mixed_environment_conflicts p.writers) × (policy ≡ conflict_error → cs ≡ [])
    complete true k = cc
    complete false k = on_conflicts-judged (mixed_environment_conflicts p.writers) policy cs w k

module _ (st : LoadSettings) where
  after_loop-finished :
      (x : Loading Turns) (l : Loaded)
      → after_loop st x ≡ loaded l
      → (r : Turns) × (x ≡ loaded r) × (finish_load st r.progress ≡ loaded l.result)
  unfolding after_loop with_result
  after_loop-finished (aborted e) l h = cc
  after_loop-finished (loaded r) l h = (r, refl, ends (finish_load st r.progress) h)
    where
      ends : (f : Loading Result) → with_result st r f ≡ loaded l → f ≡ loaded l.result
      ends (aborted e) k = cc
      ends (loaded result) k = ap (λ (x : Loaded). loaded x.result) (loaded-injective _ _ k)

  first_writers :
      (k : Text) (tracker : Tracker) (q : Progress) (section file : Bool)
      → Written st k (first_progress tracker) q section file
      → contains_text (conflict_keys (mixed_environment_conflicts q.writers)) k ≡ (section && file)
  unfolding first_progress has_sectioned has_named writers_of find
  first_writers k tracker q section file (x, y, z) =
      contains-mixed_environment_conflicts k q.writers z ∙ ap₂ (λ a b. a && b) x y

  load_slots-Written :
      (selected : Option (Text → Bool)) (slots : List Slot) (tracker : Tracker) (l : Loaded)
      → load_slots st selected slots tracker ≡ loaded l
      → st.strategy ≡ hybrid
      → (cs : List Conflict) × (cs ≡ l.result.source_plan.conflicts)
        × (st.conflict_policy ≡ conflict_error → cs ≡ [])
        × ((k : Text)
            → contains_text (conflict_keys cs) k ≡ (
                some_section_writes st k (contributions st.policy selected slots)
                && some_file_writes st k (contributions st.policy selected slots)))
  unfolding load_slots first_progress
  load_slots-Written selected slots tracker l h mode =
      let (r, ran, finished) = after_loop-finished _ l h in
      let (w, checked) = finish_load-conflicts st r.progress l.result finished in
      let (listed, none_left) = check_hybrid-conflicts _ _ _ _ w mode checked in
      (
        l.result.source_plan.conflicts,
        refl,
        none_left,
        λ k.
            ap (λ cs. contains_text (conflict_keys cs) k) listed
            ∙ first_writers k tracker r.progress _ _
                (run_turns-Written st selected 0 slots (first_progress tracker) r k tt ran),
      )

  -- Under the strategy "hybrid" the plan of a load that succeeds lists a key as a conflict exactly if
  -- both a section-based source and a file of the active environment contribute it.
  pub load_slots-conflicts :
      (selected : Option (Text → Bool)) (slots : List Slot) (tracker : Tracker) (l : Loaded)
      (k : Text)
      → load_slots st selected slots tracker ≡ loaded l
      → st.strategy ≡ hybrid
      → contains_text (conflict_keys l.result.source_plan.conflicts) k ≡ (
          some_section_writes st k (contributions st.policy selected slots)
          && some_file_writes st k (contributions st.policy selected slots))
  load_slots-conflicts selected slots tracker l k h mode =
      let (cs, same, none_left, listed) = load_slots-Written selected slots tracker l h mode in
      ap (λ ds. contains_text (conflict_keys ds) k) (sym same) ∙ listed k

  -- Under the strategy "hybrid" with the conflict policy "error", a load succeeds only if no key is
  -- contributed by both a section-based source and a file of the active environment.
  pub load_slots-conflict_error :
      (selected : Option (Text → Bool)) (slots : List Slot) (tracker : Tracker) (l : Loaded)
      (k : Text)
      → load_slots st selected slots tracker ≡ loaded l
      → st.strategy ≡ hybrid
      → st.conflict_policy ≡ conflict_error
      → (some_section_writes st k (contributions st.policy selected slots)
          && some_file_writes st k (contributions st.policy selected slots))
        ≡ false
  unfolding contains_text
  load_slots-conflict_error selected slots tracker l k h mode strict =
      let (cs, same, none_left, listed) = load_slots-Written selected slots tracker l h mode in
      sym (listed k) ∙ ap (λ ds. contains_text (conflict_keys ds) k) (none_left strict)
