-- ===== src/Load/Repeated.antt =====
-- An incremental load after a load.
use confii_go.Base.{
  ℕ, ◌+◌, Bool, true, false, Option, none, List, [], ◌∷◌, ◌≡◌, refl, ap, sym, ◌∙◌, All, length,
  ◌==◌,
}
use mathlib.Core.Path.{subst}
use confii_go.Base.{Text, if◌then◌else◌}
use confii_go.Sourcetrack.{Tracker}
use confii_go.Load.Turns.{
  ErrorPolicy, Warning, Cache, Slot, Turn, contributes, passes, stops, canceled, should_load,
  no_cache, fetch_turn, compose_turn, cached_turn, turn,
}
use confii_go.Load.Plan.{
  LoadSettings, Loading, loaded, aborted, Progress, Turns, map_loading, add_turn, after_turn,
  track_paths, run_turns,
}
use confii_go.Load.Selected.{
  Result, Loaded, first_progress, with_result, finish_load, after_loop, load_slots, load_selected,
  recache,
}
use confii_go.Load.Incremental.{IsFresh, bare, load_selected-IsFresh}
use confii_go.Load.Settled.{
  Settled, IsMadeTurn, IsMade, fetch_turn-Settled, cached_turn-passes, cached_turn-contributes,
}

pub loaded-injective {ℓ} : {A : Type ℓ} (x y : A) → loaded x ≡ loaded y → x ≡ y
loaded-injective {A = A} x y h = ap from h
  where
    from : Loading A → A
    from (loaded w) = w
    from (aborted e) = x

pub map_loading-loaded :
    (f : Turns → Turns) (x : Loading Turns) (r : Turns)
    → map_loading f x ≡ loaded r
    → (r' : Turns) × (x ≡ loaded r') × (f r' ≡ r)
unfolding map_loading
map_loading-loaded f (loaded r') r h = (r', refl, loaded-injective (f r') r h)
map_loading-loaded f (aborted e) r h = cc

-- Loaders in two worlds, of which those that are left out give the same in both.
abbrev pub Unchanged : ErrorPolicy → Option (Text → Bool) → List Slot → List Slot → Type 0
Unchanged policy selected [] [] = Unit
Unchanged policy selected [] (n ∷ new) = ⊥
Unchanged policy selected (s ∷ old) [] = ⊥
Unchanged policy selected (s ∷ old) (n ∷ new) =
    (should_load selected n.loader.source ≡ false
      → (fetch_turn policy n).0 ≡ (fetch_turn policy s).0)
    × Unchanged policy selected old new

-- A turn that read its source, and the run of the others: the cache it left gives the same turn.
abbrev Retold : LoadSettings → (Progress → Loading Turns) → Slot → Turns → Type 0
Retold st f s r =
    (r' : Turns) × (q : Progress) × (c : Cache) × (f q ≡ loaded r')
    × (r.caches ≡ c ∷ r'.caches)
    × (cached_turn (record s { cache = c }) ≡ (fetch_turn st.policy s).0)

module _ (st : LoadSettings) where
  after_turn-same :
      (f g : Progress → Loading Turns)
      → ((q : Progress) → f q ≡ g q)
      → (index : ℕ) (s : Slot) (c : Cache) (p : Progress) (t : Turn) (w : List Warning)
      → after_turn st f true index (record s { cache = c }) p t w
        ≡ after_turn st g true index s p t w
  unfolding after_turn track_paths
  after_turn-same f g h index s c p (stops e) w = refl
  after_turn-same f g h index s c p (passes cache) w = ap (map_loading _) (h _)
  after_turn-same f g h index s c p (contributes layer cache) w = ap (map_loading _) (h _)

  after_turn-Retold :
      (f : Progress → Loading Turns) (index : ℕ) (s : Slot) (p : Progress) (t : Turn)
      (w : List Warning) (r : Turns)
      → Settled t
      → IsMadeTurn t
      → (fetch_turn st.policy s).0 ≡ t
      → after_turn st f true index s p t w ≡ loaded r
      → Retold st f s r
  unfolding after_turn add_turn
  after_turn-Retold f index s p (stops e) w r settled made gave h = cc
  after_turn-Retold f index s p (passes c) w r settled made gave h =
      let (r', ran, e) = map_loading-loaded _ _ r h in
      (
        r',
        _,
        c,
        ran,
        sym (ap (λ (x : Turns). x.caches) e),
        cached_turn-passes s c settled ∙ sym gave,
      )
  after_turn-Retold f index s p (contributes layer c) w r settled made gave h =
      let (r', ran, e) = map_loading-loaded _ _ r h in
      (
        r',
        _,
        c,
        ran,
        sym (ap (λ (x : Turns). x.caches) e),
        cached_turn-contributes s c layer settled made ∙ sym gave,
      )

  turn-Retold :
      (f : Progress → Loading Turns) (index : ℕ) (s : Slot) (p : Progress) (r : Turns)
      → IsMade st.policy s
      → after_turn st f true index s p (turn st.policy none s).0 (turn st.policy none s).1
        ≡ loaded r
      → Retold st f s r
  unfolding turn should_load after_turn
  turn-Retold f index s p r made h = branches s.ended_before h
    where
      branches :
          (ended : Bool)
          → after_turn st f true index s p
              ((λ (y : Turn × List Warning). y.0)
                (if ended then (stops canceled, []) else fetch_turn st.policy s))
              ((λ (y : Turn × List Warning). y.1)
                (if ended then (stops canceled, []) else fetch_turn st.policy s))
            ≡ loaded r
          → Retold st f s r
      branches true k = cc
      branches false k =
          after_turn-Retold f index s p (fetch_turn st.policy s).0 (fetch_turn st.policy s).1 r
            (fetch_turn-Settled st.policy s) made refl k

  -- The caches that a run leaves serve for the sources that have not changed since.
  run_turns-IsFresh_again :
      (selected : Option (Text → Bool)) (index : ℕ) (old new : List Slot) (p : Progress) (r : Turns)
      → All (IsMade st.policy) old
      → Unchanged st.policy selected old new
      → run_turns st none index old p ≡ loaded r
      → All (IsFresh st.policy selected) (recache r.caches new)
  unfolding run_turns recache should_load fetch_turn compose_turn cached_turn
  run_turns-IsFresh_again selected index [] [] p r made kept h = tt
  run_turns-IsFresh_again selected index [] (n ∷ new) p r made kept h = absurd kept
  run_turns-IsFresh_again selected index (s ∷ old) [] p r made kept h = absurd kept
  run_turns-IsFresh_again selected index (s ∷ old) (n ∷ new) p r (made, rest) (still, later) h =
      let (r', q, c, ran, e, same) =
        turn-Retold (λ q. run_turns st none (index + 1) old q) index s p r made h in
      subst (λ cs. All (IsFresh st.policy selected) (recache cs (n ∷ new))) (sym e)
        (
          λ skipped. still skipped ∙ sym same,
          run_turns-IsFresh_again selected (index + 1) old new q r' rest later ran,
        )

  -- A run that reads every source does not look at the caches.
  run_turns-recache :
      (caches : List Cache) (index : ℕ) (slots : List Slot) (p : Progress)
      → run_turns st none index (recache caches slots) p ≡ run_turns st none index slots p
  unfolding run_turns recache should_load fetch_turn compose_turn turn
  run_turns-recache caches index [] p = refl
  run_turns-recache [] index (s ∷ slots) p =
      after_turn-same _ _ (λ q. run_turns-recache [] (index + 1) slots q) index s no_cache p _ _
  run_turns-recache (c ∷ caches) index (s ∷ slots) p =
      after_turn-same _ _ (λ q. run_turns-recache caches (index + 1) slots q) index s c p _ _

  -- A full load does not look at the caches.
  load_selected-none :
      (caches : List Cache) (slots : List Slot) (tracker : Tracker)
      → load_selected st none caches slots tracker ≡ load_slots st none slots tracker
  unfolding load_selected load_slots
  load_selected-none caches slots tracker =
      choose (length caches == length slots)
        (ap (after_loop st) (run_turns-recache caches 0 slots (first_progress tracker)))
        (ap (after_loop st) (run_turns-recache [] 0 slots (first_progress tracker)))
    where
      choose : (b : Bool) {x y z : Loading Loaded} → x ≡ z → y ≡ z → (if b then x else y) ≡ z
      choose true e f = e
      choose false e f = f

  after_loop-loaded :
      (x : Loading Turns) (l : Loaded)
      → after_loop st x ≡ loaded l
      → (r : Turns) × (x ≡ loaded r) × (l.caches ≡ r.caches)
  unfolding after_loop with_result
  after_loop-loaded (aborted e) l h = cc
  after_loop-loaded (loaded r) l h = (r, refl, kept (finish_load st r.progress) h)
    where
      kept : (f : Loading Result) → with_result st r f ≡ loaded l → l.caches ≡ r.caches
      kept (aborted e) k = cc
      kept (loaded result) k = sym (ap (λ (x : Loaded). x.caches) (loaded-injective _ _ k))

  -- After a load that succeeded, a load that reads only the sources that have changed since ends as a
  -- load of all sources, up to the tracker of files and the log records. The condition is on the
  -- layers of the first load: the copy of each is the layer itself, as when no map in it is nil.
  pub load_selected-Unchanged :
      (selected : Option (Text → Bool)) (caches others : List Cache) (old new : List Slot)
      (tracker next_tracker : Tracker) (l : Loaded)
      → load_selected st none caches old tracker ≡ loaded l
      → All (IsMade st.policy) old
      → Unchanged st.policy selected old new
      → bare (load_selected st selected l.caches new next_tracker)
        ≡ bare (load_selected st none others new next_tracker)
  unfolding load_slots
  load_selected-Unchanged selected caches others old new tracker next_tracker l h made kept =
      let (r, ran, e) = after_loop-loaded _ l (sym (load_selected-none caches old tracker) ∙ h) in
      load_selected-IsFresh st selected l.caches new next_tracker (
        subst (λ cs. All (IsFresh st.policy selected) (recache cs new)) (sym e)
          (run_turns-IsFresh_again selected 0 old new (first_progress tracker) r made kept ran))
      ∙ ap bare (
          load_selected-none l.caches new next_tracker
          ∙ sym (load_selected-none others new next_tracker))
