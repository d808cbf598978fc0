-- ===== src/Compose/Traverse.antt =====
-- What a traversal keeps: one induction on the levels and the paths, for any invariant of the
-- traversal and any property of the results.
use confii_go.Base.{
  ◌≡◌, refl, ℕ, zero, suc, ◌+◌, Bool, true, false, Option, none, some, List, [], ◌∷◌,
}
use confii_go.Base.{Text, contains_text, if◌then◌else◌}
use confii_go.Value.{Value, Fields, text, sequence, end}
use confii_go.Value.Maps.{lookup, delete}
use confii_go.Compose.{
  ComposeError, Outcome, done, failed, Traversal, Environment, Step, include_key, strategy_key,
}
use confii_go.Compose.{
  poll, visit, load_file, include_paths, include_dir, process_includes, compose, apply_defaults,
  text_items,
}

-- A property of the map, where there is one.
abbrev pub Holds : (Fields → Type 0) → Outcome Fields → Type 0
Holds K (done m) = K m
Holds K (failed e) = Unit

module _ (c : Environment) (K : Fields → Type 0) (P : Traversal → Type 0) where
  abbrev pub Kept : Outcome Fields × Traversal → Type 0
  Kept r = Holds K r.0 × P r.1

  -- The next three split on a value that the code looks at, with what it does in either case.
  on_bool :
      (b : Bool) (x y : Outcome Fields × Traversal)
      → (b ≡ true → Kept x)
      → (b ≡ false → Kept y)
      → Kept (elim b [ true ↦ x | false ↦ y ])
  on_bool true x y f g = f refl
  on_bool false x y f g = g refl

  on_option {ℓ} :
      {A : Type ℓ} (o : Option A) (x : Outcome Fields × Traversal)
      (y : A → Outcome Fields × Traversal)
      → (o ≡ none → Kept x)
      → ((a : A) → o ≡ some a → Kept (y a))
      → Kept (elim o [ none ↦ x | some a ↦ y a ])
  on_option none x y f g = f refl
  on_option (some a) x y f g = g a refl

  on_outcome :
      (r : Outcome Fields) (t : Traversal) (x : ComposeError → Outcome Fields × Traversal)
      (y : Fields → Outcome Fields × Traversal)
      → Kept (r, t)
      → ((e : ComposeError) → P t → Kept (x e))
      → ((m : Fields) → K m → P t → Kept (y m))
      → Kept (elim r [ failed e ↦ x e | done m ↦ y m ])
  on_outcome (failed e) t x y (k, p) f g = f e p
  on_outcome (done m) t x y (k, p) f g = g m k p

  module _ (polled : (t : Traversal) → P t → P (record t { polls = t.polls + 1 })) where
    poll_keeps :
        (next : Step)
        → ((t : Traversal) → P t → Kept (next t))
        → (t : Traversal) → P t
        → Kept (poll c next t)
    unfolding poll
    poll_keeps next h t p =
        on_bool (c.canceled t.polls) _ _ (λ e. (tt, polled t p))
          (λ e. h (record t { polls = t.polls + 1 }) (polled t p))

    load_file_keeps :
        (below : Fields → Text → Step)
        → ((m : Fields) (source : Text) (t : Traversal) → P t → Kept (below m source t))
        → (path : Text) (t : Traversal) → P t
        → Kept (load_file c below path t)
    unfolding load_file
    load_file_keeps below h path = poll_keeps _ (λ t p.
        on_option (c.read_file path) _ _ (λ e. (tt, p))
          (λ bytes e.
            poll_keeps _
              (λ t1 q.
                on_option (c.decode path bytes) _ _ (λ f. (tt, q))
                  (λ m f. poll_keeps (below m path) (h m path) t1 q))
              t p))

    module _
        (visited : (t : Traversal) (k : Text)
          → contains_text t.visited k ≡ false
          → P t
          → P (visit c k t))
        (merged : (m n : Fields) → K m → K n → K (c.merge m n)) where
      include_paths_keeps :
          (below : Fields → Text → Step)
          → ((m : Fields) (source : Text) (t : Traversal) → P t → Kept (below m source t))
          → (dir : Text) (ps : List Text) (result : Fields) → K result
          → (t : Traversal) → P t
          → Kept (include_paths c below dir ps result t)
      unfolding include_paths
      include_paths_keeps below h dir [] result k t p = (k, p)
      include_paths_keeps below h dir (q ∷ qs) result k t p =
          poll_keeps _
            (λ t1 p1.
              let resolved = if c.paths.is_abs q then q else c.paths.join dir q in
              on_option (c.paths.absolute_path resolved) _ _ (λ e. (tt, p1))
                (λ absolute e.
                  on_bool (contains_text t1.visited (c.paths.clean absolute)) _ _
                    (λ seen. include_paths_keeps below h dir qs result k t1 p1)
                    (λ new.
                      let loaded =
                        load_file_keeps below h resolved (visit c (c.paths.clean absolute) t1)
                          (visited t1 (c.paths.clean absolute) new p1) in
                      on_outcome _ _ _ _ loaded (λ f p2. (tt, p2))
                        (λ m km p2.
                          include_paths_keeps below h dir qs (c.merge result m)
                            (merged result m k km)
                            (load_file c below resolved (visit c (c.paths.clean absolute) t1)).1
                            p2))))
            t p

      process_includes_keeps :
          (below : Fields → Text → Step)
          → ((m : Fields) (source : Text) (t : Traversal) → P t → Kept (below m source t))
          → K end
          → (v : Value) (source : Text) (t : Traversal) → P t
          → Kept (process_includes c below v source t)
      unfolding process_includes
      process_includes_keeps below h none_yet (text s) source t p =
          include_paths_keeps below h (include_dir c source) (s ∷ []) end none_yet t p
      process_includes_keeps below h none_yet (sequence xs) source t p =
          include_paths_keeps below h (include_dir c source) (text_items xs) end none_yet t p
      process_includes_keeps below h none_yet _ source t p = (none_yet, p)

      -- A property of the results that the merges keep and an invariant that a visit keeps both hold
      -- after a composition.
      pub compose_keeps :
          K end
          → ((config : Fields)
              → lookup include_key (apply_defaults c config) ≡ none
              → K (delete strategy_key (apply_defaults c config)))
          → ((config included : Fields)
              → K included
              → K (
                  delete strategy_key
                    (delete include_key (c.merge (apply_defaults c config) included))))
          → (levels : ℕ) (config : Fields) (source : Text) (t : Traversal) → P t
          → Kept (compose c levels config source t)
      unfolding compose
      compose_keeps none_yet plain combined zero config source t p =
          poll_keeps _ (λ t1 p1. (tt, p1)) t p
      compose_keeps none_yet plain combined (suc levels) config source t p =
          poll_keeps _
            (λ t1 p1.
              on_option (lookup include_key (apply_defaults c config)) _ _
                (λ e. (plain config e, p1))
                (λ includes e.
                  let processed =
                    process_includes_keeps (λ m s u. compose c levels m s u)
                      (λ m s u q. compose_keeps none_yet plain combined levels m s u q) none_yet
                      includes source t1 p1 in
                  on_outcome _ _ _ _ processed (λ f p2. (tt, p2))
                    (λ m km p2. (combined config m km, p2))))
            t p
