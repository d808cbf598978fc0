-- ===== src/Reload/Quiet.antt =====
-- A reload of sources that have not changed.
use confii_go.Base.{
  Bool, true, false, not, Option, some, List, [], ◌∷◌, ◌≡◌, refl, ap, ◌∙◌, All, if-false,
}
use confii_go.Base.{Text, text_eq, contains_text, if◌then◌else◌}
use confii_go.Base.Dict.{find}
use confii_go.Sourcetrack.Files.{
  FileState, FileTracker, is_non_file_source, compare_state, has_changed, is_trackable,
}
use confii_go.Sourcetrack.Changes.{has_changed-known}
use confii_go.Runtime.State.{Settings}
use confii_go.Load.Turns.{Loader, Cache}
use confii_go.Load.Plan.{LoadSettings}
use confii_go.Reload.Prepare.{
  Config, quiet, World, default_opts, wants_load, select_changed, some_changed, select_dependents,
  select_sources, apply_options, reload_selected, prepare_with, prepare_reload_candidate,
}

-- A local file whose content is that of its last record.
abbrev pub IsUnchanged : World → FileTracker → Text → Type 0
IsUnchanged w t path =
    (contains_text t.untrackable path ≡ false)
    × (is_non_file_source w.to_lower path ≡ false)
    × ((old : FileState) × (now : FileState) × (find path t.files ≡ some old)
        × (w.disk path ≡ some now)
        × (text_eq now.hash old.hash ≡ true))

module _ (w : World) where
  has_changed-IsUnchanged :
      (t : FileTracker) (path : Text)
      → IsUnchanged w t path
      → has_changed w.to_lower w.disk path t ≡ (false, t)
  unfolding compare_state
  has_changed-IsUnchanged t path (fresh, local, (old, now, known, readable, same)) =
      has_changed-known w.to_lower w.disk path t old fresh local known
      ∙ ap (λ (o : Option FileState). compare_state w.to_lower o path old t) readable
      ∙ ap (λ b. (not b, t)) same

  wants_load-IsUnchanged :
      (t : FileTracker) (path : Text) → IsUnchanged w t path → wants_load w path t ≡ (false, t)
  unfolding wants_load is_trackable
  wants_load-IsUnchanged t path (fresh, local, rest) =
      if-false _ _ _ (ap not (if-false _ _ _ local ∙ ap not fresh))
      ∙ has_changed-IsUnchanged t path (fresh, local, rest)

  select_changed-IsUnchanged :
      (loaders : List Loader) (selected : List Text) (t : FileTracker)
      → All (λ (l : Loader). IsUnchanged w t l.source) loaders
      → select_changed w loaders (selected, t) ≡ (selected, t)
  unfolding select_changed
  select_changed-IsUnchanged [] selected t h = refl
  select_changed-IsUnchanged (l ∷ loaders) selected t (h, hs) =
      ap
        (λ (x : Bool × FileTracker).
          select_changed w loaders (if x.0 then l.source ∷ selected else selected, x.1))
        (wants_load-IsUnchanged t l.source h)
      ∙ select_changed-IsUnchanged loaders selected t hs

  some_changed-IsUnchanged :
      (ds : List Text) (t : FileTracker)
      → All (IsUnchanged w t) ds
      → some_changed w ds t ≡ (false, t)
  unfolding some_changed
  some_changed-IsUnchanged [] t h = refl
  some_changed-IsUnchanged (d ∷ ds) t (h, hs) =
      ap (λ (x : Bool × FileTracker). if x.0 then (true, x.1) else some_changed w ds x.1)
        (has_changed-IsUnchanged t d h)
      ∙ some_changed-IsUnchanged ds t hs

  select_dependents-IsUnchanged :
      (loaders : List Loader) (caches : List Cache) (selected : List Text) (t : FileTracker)
      → All (λ (c : Cache). All (IsUnchanged w t) c.dependencies) caches
      → select_dependents w loaders caches (selected, t) ≡ (selected, t)
  unfolding select_dependents
  select_dependents-IsUnchanged [] caches selected t h = refl
  select_dependents-IsUnchanged (l ∷ loaders) [] selected t h = refl
  select_dependents-IsUnchanged (l ∷ loaders) (c ∷ caches) selected t (h, hs) =
      ap
        (λ (x : Bool × FileTracker).
          select_dependents w loaders caches (if x.0 then l.source ∷ selected else selected, x.1))
        (some_changed-IsUnchanged c.dependencies t h)
      ∙ select_dependents-IsUnchanged loaders caches selected t hs

  -- A reload without options, of sources that are all local files whose content and that of their
  -- dependencies is as it was recorded, publishes nothing.
  pub prepare_reload_candidate-IsUnchanged :
      (st : Settings) (ls : LoadSettings) (c : Config)
      → All (λ (l : Loader). IsUnchanged w c.files l.source) c.loaders
      → All (λ (k : Cache). All (IsUnchanged w c.files) k.dependencies) c.caches
      → prepare_reload_candidate w st ls [] c ≡ quiet
  unfolding prepare_reload_candidate apply_options prepare_with select_sources reload_selected
  prepare_reload_candidate-IsUnchanged st ls c sources dependencies =
      ap (λ s. reload_selected w st ls default_opts c s)
        (ap (select_dependents w c.loaders c.caches)
            (select_changed-IsUnchanged c.loaders [] c.files sources)
          ∙ select_dependents-IsUnchanged c.loaders c.caches [] c.files dependencies)
