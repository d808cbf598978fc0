-- ===== src/Load/Writers.antt =====
-- The writers of each key, from what the loaders of a load contributed.
use mathlib.Core.Path.{subst}
use confii_go.Base.{
  ℕ, ◌+◌, Bool, true, false, not, ◌&&◌, ◌||◌, Option, some, List, [], ◌∷◌, ◌≡◌, refl, ap, sym,
  arith,
}
use confii_go.Base.{Text, contains_text, if◌then◌else◌}
use confii_go.Base.Sort.{sort_texts, contains-sort_texts}
use confii_go.Base.Dict.{IsDistinct}
use confii_go.Value.{Fields}
use confii_go.Dictutil.Flatten.{flat_keys}
use confii_go.Envhandler.{is_environment_aware}
use confii_go.Load.Conflicts.{
  has_sectioned, has_named, writers_of, Writer, from_section, from_named_file,
}
use confii_go.Load.Mixed.{has_sectioned-add_writer, has_named-add_writer, add_writer-IsDistinct}
use confii_go.Load.Turns.{
  ErrorPolicy, Loader, Warning, Slot, Turn, contributes, passes, stops, turn,
}
use confii_go.Load.Plan.{
  LoadSettings, Loading, loaded, Progress, Turns, add_turn, after_turn, contribute, pass_over,
  run_turns, resolved_layer, record_plan_layer, record_file_layer, record_sectioned_layer,
  record_flat_layer,
}
use confii_go.Load.Repeated.{loaded-injective, map_loading-loaded}

-- What one load gathers: the loaders that contribute, each with its layer.
abbrev pub with_contribution : Loader → Turn → List (Loader × Fields) → List (Loader × Fields)
with_contribution l (contributes layer cache) rest = (l, layer) ∷ rest
with_contribution l (passes cache) rest = rest
with_contribution l (stops e) rest = rest

unfoldable pub contributions :
    ErrorPolicy → Option (Text → Bool) → List Slot → List (Loader × Fields)
contributions policy selected [] = []
contributions policy selected (s ∷ slots) =
    with_contribution s.loader (turn policy selected s).0 (contributions policy selected slots)

module _ (st : LoadSettings) where
  -- The layer of a loader has a key.
  abbrev pub writes : Text → Loader → Fields → Bool
  writes k l layer = contains_text (flat_keys (some (resolved_layer st l layer))) k

  unfoldable pub some_section_writes : Text → List (Loader × Fields) → Bool
  some_section_writes k [] = false
  some_section_writes k ((l, layer) ∷ rest) =
      (not l.selected_env_file && is_environment_aware layer st.env && writes k l layer)
      || some_section_writes k rest

  unfoldable pub some_file_writes : Text → List (Loader × Fields) → Bool
  some_file_writes k [] = false
  some_file_writes k ((l, layer) ∷ rest) =
      (l.selected_env_file && writes k l layer) || some_file_writes k rest

  -- The writers of a key after the writes that `section` and `file` tell of.
  abbrev pub Written : Text → Progress → Progress → Bool → Bool → Type 0
  Written k p q section file =
      (has_sectioned (writers_of k q.writers) ≡ (has_sectioned (writers_of k p.writers) || section))
      × (has_named (writers_of k q.writers) ≡ (has_named (writers_of k p.writers) || file))
      × IsDistinct q.writers

  contribute-Written :
      (k : Text) (index : ℕ) (l : Loader) (layer : Fields) (p : Progress)
      → IsDistinct p.writers
      → Written k p
          (contribute st index l layer p)
          (not l.selected_env_file && is_environment_aware layer st.env && writes k l layer)
          (l.selected_env_file && writes k l layer)
  unfolding contribute record_plan_layer record_file_layer record_sectioned_layer record_flat_layer
      has_sectioned
  contribute-Written k index l layer p h =
      branches l.selected_env_file (is_environment_aware layer st.env)
    where
      ks : List Text
      ks = sort_texts (flat_keys (some (resolved_layer st l layer)))

      file : Writer
      file = record { family = from_named_file; source = l.source }

      section : Writer
      section = record { family = from_section; source = l.source }

      sorted : contains_text ks k ≡ writes k l layer
      sorted = contains-sort_texts k (flat_keys (some (resolved_layer st l layer)))

      branches :
          (is_file is_aware : Bool)
          → Written k p
              (if is_file
                then record_file_layer st index l ks p
                else if is_aware
                then record_sectioned_layer st index l ks p
                else record_flat_layer st index l ks p)
              (not is_file && is_aware && writes k l layer)
              (is_file && writes k l layer)
      branches true is_aware = (
        ground (arith, has_sectioned-add_writer file ks k p.writers),
        ground (arith, has_named-add_writer file ks k p.writers, sorted),
        add_writer-IsDistinct file ks p.writers h,
      )
      branches false true = (
        ground (arith, has_sectioned-add_writer section ks k p.writers, sorted),
        ground (arith, has_named-add_writer section ks k p.writers),
        add_writer-IsDistinct section ks p.writers h,
      )
      branches false false = (ground arith, ground arith, h)

  -- One turn of a run that ended: the progress on which the others went on.
  after_turn-loaded :
      (f : Progress → Loading Turns) (b : Bool) (index : ℕ) (s : Slot) (p : Progress) (t : Turn)
      (w : List Warning) (r : Turns)
      → IsDistinct p.writers
      → after_turn st f b index s p t w ≡ loaded r
      → (k : Text)
      → (r' : Turns) × (q : Progress) × (f q ≡ loaded r')
        × (r.progress ≡ r'.progress)
        × Written k p q
            (some_section_writes k (with_contribution s.loader t []))
            (some_file_writes k (with_contribution s.loader t []))
  unfolding after_turn add_turn some_section_writes some_file_writes pass_over
  after_turn-loaded f b index s p (stops e) w r d h k = cc
  after_turn-loaded f b index s p (passes cache) w r d h k =
      let (r', ran, e) = map_loading-loaded _ _ r h in
      (r', _, ran, sym (ap (λ (x : Turns). x.progress) e), (ground arith, ground arith, d))
  after_turn-loaded f b index s p (contributes layer cache) w r d h k =
      let (r', ran, e) = map_loading-loaded _ _ r h in
      let (x, y, z) = contribute-Written k index s.loader layer p d in
      (
        r',
        _,
        ran,
        sym (ap (λ (x : Turns). x.progress) e),
        (ground (arith, x), ground (arith, y), z),
      )

  gathered :
      (l : Loader) (t : Turn) (k : Text) (rest : List (Loader × Fields))
      → (some_section_writes k (with_contribution l t rest)
          ≡ (some_section_writes k (with_contribution l t []) || some_section_writes k rest))
        × (some_file_writes k (with_contribution l t rest)
            ≡ (some_file_writes k (with_contribution l t []) || some_file_writes k rest))
  unfolding some_section_writes some_file_writes
  gathered l (contributes layer cache) k rest = (ground arith, ground arith)
  gathered l (passes cache) k rest = (refl, refl)
  gathered l (stops e) k rest = (refl, refl)

  pub run_turns-Written :
      (selected : Option (Text → Bool)) (index : ℕ) (slots : List Slot) (p : Progress) (r : Turns)
      (k : Text)
      → IsDistinct p.writers
      → run_turns st selected index slots p ≡ loaded r
      → Written k p r.progress
          (some_section_writes k (contributions st.policy selected slots))
          (some_file_writes k (contributions st.policy selected slots))
  unfolding run_turns contributions some_section_writes some_file_writes
  run_turns-Written selected index [] p r k d h =
      subst (λ (q : Turns). Written k p q.progress false false) (loaded-injective _ r h)
        (ground arith, ground arith, d)
  run_turns-Written selected index (s ∷ slots) p r k d h =
      let t = (turn st.policy selected s).0 in
      let (r', q, ran, e, (x, y, z)) =
        after_turn-loaded (λ q. run_turns st selected (index + 1) slots q) _ index s p t _ r d h
          k in
      let (x', y', z') = run_turns-Written selected (index + 1) slots q r' k z ran in
      let (u, v) = gathered s.loader t k (contributions st.policy selected slots) in
      subst
        (λ (m : Progress).
          Written k p m (some_section_writes k (contributions st.policy selected (s ∷ slots)))
            (some_file_writes k (contributions st.policy selected (s ∷ slots))))
        (sym e) (ground (arith, x, x', u), ground (arith, y, y', v), z')
