-- ===== src/Load/Incremental.antt =====
-- Loads that read only some of the sources again.
use confii_go.Base.{
  ℕ, ◌+◌, Bool, true, false, Option, none, List, [], ◌∷◌, ◌≡◌, refl, ap, sym, ◌∙◌, All, length,
  ◌==◌,
}
use confii_go.Base.{Text, if◌then◌else◌}
use confii_go.Sourcetrack.{Tracker}
use confii_go.Load.Turns.{
  ErrorPolicy, Warning, Cache, Slot, Turn, contributes, passes, stops, canceled, should_load,
  fetch_turn, cached_turn, turn,
}
use confii_go.Load.Plan.{
  LoadSettings, Loading, loaded, aborted, Progress, Turns, map_loading, add_turn, after_turn,
  run_turns,
}
use confii_go.Load.Selected.{
  Result, Loaded, first_progress, with_result, finish_load, after_loop, load_slots, load_selected,
  recache,
}

-- A slot whose source is left out would give what its cache gives.
abbrev pub IsFresh : ErrorPolicy → Option (Text → Bool) → Slot → Type 0
IsFresh policy selected s =
    should_load selected s.loader.source ≡ false → (fetch_turn policy s).0 ≡ cached_turn s

-- Without the paths for the tracker of files and the log records.
abbrev pub untraced : Loading Turns → Loading Turns
untraced (loaded r) = loaded (record r { tracked = []; warnings = [] })
untraced (aborted e) = aborted e

abbrev pub bare : Loading Loaded → Loading Loaded
bare (loaded l) = loaded (record l { tracked = []; warnings = [] })
bare (aborted e) = aborted e

turn-IsFresh :
    (policy : ErrorPolicy) (selected : Option (Text → Bool)) (s : Slot)
    → IsFresh policy selected s
    → (turn policy selected s).0 ≡ (turn policy none s).0
unfolding turn should_load
turn-IsFresh policy selected s h = branches s.ended_before (should_load selected s.loader.source) h
  where
    branches :
        (ended wanted : Bool)
        → (wanted ≡ false → (fetch_turn policy s).0 ≡ cached_turn s)
        → ◌≡◌ {A = Turn}
            ((λ (x : Turn × List Warning). x.0)
              (if ended
                then (stops canceled, [])
                else if wanted
                then fetch_turn policy s
                else (cached_turn s, [])))
            ((λ (x : Turn × List Warning). x.0)
              (if ended then (stops canceled, []) else fetch_turn policy s))
    branches true wanted k = refl
    branches false true k = refl
    branches false false k = sym (k refl)

untraced-add_turn :
    (c : Cache) (t u : List Text) (w v : List Warning) (x y : Loading Turns)
    → untraced x ≡ untraced y
    → untraced (map_loading (add_turn c t w) x) ≡ untraced (map_loading (add_turn c u v) y)
unfolding map_loading add_turn
untraced-add_turn c t u w v x y e =
    over t w x ∙ ap (map_loading (add_turn c [] [])) e ∙ sym (over u v y)
  where
    over :
        (t : List Text) (w : List Warning) (x : Loading Turns)
        → untraced (map_loading (add_turn c t w) x) ≡ map_loading (add_turn c [] []) (untraced x)
    over t w (loaded r) = refl
    over t w (aborted e) = refl

module _ (st : LoadSettings) where
  untraced-after_turn :
      (f g : Progress → Loading Turns)
      → ((q : Progress) → untraced (f q) ≡ untraced (g q))
      → (b c : Bool) (index : ℕ) (s : Slot) (p : Progress) (t : Turn) (w v : List Warning)
      → untraced (after_turn st f b index s p t w) ≡ untraced (after_turn st g c index s p t v)
  unfolding after_turn
  untraced-after_turn f g h b c index s p (stops e) w v = refl
  untraced-after_turn f g h b c index s p (passes cache) w v =
      untraced-add_turn cache _ _ w v _ _ (h _)
  untraced-after_turn f g h b c index s p (contributes layer cache) w v =
      untraced-add_turn cache _ _ w v _ _ (h _)

  run_turns-IsFresh :
      (selected : Option (Text → Bool)) (index : ℕ) (slots : List Slot) (p : Progress)
      → All (IsFresh st.policy selected) slots
      → untraced (run_turns st selected index slots p) ≡ untraced (run_turns st none index slots p)
  unfolding run_turns
  run_turns-IsFresh selected index [] p fresh = refl
  run_turns-IsFresh selected index (s ∷ slots) p (fresh, rest) =
      same (turn st.policy selected s) (turn st.policy none s)
        (turn-IsFresh st.policy selected s fresh)
        (λ q. run_turns-IsFresh selected (index + 1) slots q rest)
    where
      same :
          (x y : Turn × List Warning)
          → x.0 ≡ y.0
          → ((q : Progress)
              → untraced (run_turns st selected (index + 1) slots q)
                ≡ untraced (run_turns st none (index + 1) slots q))
          → untraced (
              after_turn st
                (λ q. run_turns st selected (index + 1) slots q)
                (should_load selected s.loader.source)
                index
                s
                p
                x.0
                x.1)
            ≡ untraced (
                after_turn st
                  (λ q. run_turns st none (index + 1) slots q)
                  (should_load none s.loader.source)
                  index
                  s
                  p
                  y.0
                  y.1)
      same x y e later =
          untraced-after_turn _ _ later _ _ index s p x.0 x.1 y.1
          ∙ ap
              (λ t. untraced (
                after_turn st (λ q. run_turns st none (index + 1) slots q)
                  (should_load none s.loader.source) index s p t y.1))
              e

  bare-with_result :
      (r : Turns) (f : Loading Result)
      → bare (with_result st r f)
        ≡ bare (with_result st (record r { tracked = []; warnings = [] }) f)
  unfolding with_result
  bare-with_result r (aborted e) = refl
  bare-with_result r (loaded result) = refl

  bare-untraced : (x : Loading Turns) → bare (after_loop st x) ≡ bare (after_loop st (untraced x))
  unfolding after_loop
  bare-untraced (aborted e) = refl
  bare-untraced (loaded r) = bare-with_result r (finish_load st r.progress)

  pub bare-after_loop :
      (x y : Loading Turns)
      → untraced x ≡ untraced y
      → bare (after_loop st x) ≡ bare (after_loop st y)
  bare-after_loop x y e =
      bare-untraced x ∙ ap (λ z. bare (after_loop st z)) e ∙ sym (bare-untraced y)

  -- If each source that is left out would give what its cache gives, then a load of the selected
  -- sources ends as a load of all of them, up to the tracker of files and the log records.
  pub load_selected-IsFresh :
      (selected : Option (Text → Bool)) (caches : List Cache) (slots : List Slot)
      (tracker : Tracker)
      → All (IsFresh st.policy selected) (recache caches slots)
      → bare (load_selected st selected caches slots tracker)
        ≡ bare (load_selected st none caches slots tracker)
  unfolding load_selected load_slots
  load_selected-IsFresh selected caches slots tracker fresh =
      choose (length caches == length slots) _ _ _ (
        bare-after_loop _ _
          (run_turns-IsFresh selected 0 (recache caches slots) (first_progress tracker) fresh))
    where
      choose :
          (b : Bool) (x y z : Loading Loaded)
          → bare x ≡ bare y
          → bare (if b then x else z) ≡ bare (if b then y else z)
      choose true x y z e = e
      choose false x y z e = refl
