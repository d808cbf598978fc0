-- ===== src/Sourcetrack/Changes.antt =====
-- When the tracker of files says that a file has changed.
use confii_go.Base.{true, false, ◌||◌, Option, none, some, ◌∷◌, ◌≡◌, ap, ◌∙◌, if-true, if-false}
use confii_go.Base.{Text, text_eq_refl, contains_text}
use confii_go.Base.Dict.{find}
use confii_go.Sourcetrack.Files.{
  FileState, FileTracker, Disk, remove_key, is_non_file_source, compare_state, has_changed,
}

module _ (to_lower : Text → Text) where
  -- A file whose state is recorded.
  pub has_changed-known :
      (disk : Disk) (path : Text) (t : FileTracker) (old : FileState)
      → contains_text t.untrackable path ≡ false
      → is_non_file_source to_lower path ≡ false
      → find path t.files ≡ some old
      → has_changed to_lower disk path t ≡ compare_state to_lower (disk path) path old t
  unfolding has_changed
  has_changed-known disk path t old fresh local known =
      if-false _ _ _ fresh
      ∙ if-false _ _ _ local
      ∙ ap
          (λ (o : Option FileState). elim o [
            | none ↦ (true, t)
            | some s ↦ compare_state to_lower (disk path) path s t
          ])
          known

  has_changed-untrackable :
      (disk : Disk) (path : Text) (t : FileTracker)
      → contains_text t.untrackable path ≡ true
      → has_changed to_lower disk path t ≡ (false, t)
  unfolding has_changed
  has_changed-untrackable disk path t h = if-true _ _ _ h

  -- A tracked file that cannot be read any more does not count as changed, and it never will, whatever
  -- the disk holds later, as long as it is not tracked again.
  pub has_changed-lost :
      (disk later : Disk) (path : Text) (t : FileTracker) (old : FileState)
      → contains_text t.untrackable path ≡ false
      → is_non_file_source to_lower path ≡ false
      → find path t.files ≡ some old
      → disk path ≡ none
      → (lost : FileTracker) × (has_changed to_lower disk path t ≡ (false, lost))
        × (has_changed to_lower later path lost ≡ (false, lost))
  unfolding compare_state contains_text
  has_changed-lost disk later path t old fresh local known gone = (
    lost,
    has_changed-known disk path t old fresh local known
        ∙ ap (λ (o : Option FileState). compare_state to_lower o path old t) gone,
    has_changed-untrackable later path lost
        (ap (λ b. b || contains_text t.untrackable path) (text_eq_refl path)),
  )
    where
      lost : FileTracker
      lost = record t { files = remove_key path t.files; untrackable = path ∷ t.untrackable }
