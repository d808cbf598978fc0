-- ===== src/Sourcetrack/Files.antt =====
-- sourcetrack/filetracker.go and internal/sourcekind/kind.go: which local files have changed.
-- The locks are left out. `disk` is readState, which reads a file's time and the hash of its content, and
-- is none where that fails. `strings.ToLower` is a parameter.
use confii_go.Base.{Bool, true, false, not, ◌||◌, Option, none, some, List, [], ◌∷◌}
use confii_go.Base.{Text, codes, text_eq, has_prefix, contains_text, if◌then◌else◌}
use confii_go.Base.Split.{is_empty}
use confii_go.Base.Int.{ℤ}
use confii_go.Base.Dict.{Dict, find, put}

pub record FileState : Type 0 where
  pub mtime : ℤ
  pub hash : Text

-- `untrackable` is a set: the list of its elements.
pub record FileTracker : Type 0 where
  pub files : Dict FileState
  pub untrackable : List Text

abbrev pub Disk : Type 0
Disk = Text → Option FileState

abbrev pub non_file_scheme_prefixes : List Text
non_file_scheme_prefixes =
    codes "http://"
    ∷ codes "https://"
    ∷ codes "environment:"
    ∷ codes "env:"
    ∷ codes "s3://"
    ∷ codes "ssm:"
    ∷ codes "gs://"
    ∷ codes "azure://"
    ∷ codes "ibmcos://"
    ∷ codes "git:"
    ∷ codes "consul://"
    ∷ codes "vault://"
    ∷ codes "vault:"
    ∷ codes "file://"
    ∷ []

-- The loop over the prefixes.
unfoldable pub has_some_prefix : Text → List Text → Bool
has_some_prefix s [] = false
has_some_prefix s (p ∷ ps) = has_prefix s p || has_some_prefix s ps

unfoldable pub new_file_tracker : FileTracker
new_file_tracker = record { files = []; untrackable = [] }

-- `delete(m, k)` on a set and on a map.
unfoldable pub remove_text : Text → List Text → List Text
remove_text s [] = []
remove_text s (t ∷ ts) = let later = remove_text s ts in if text_eq t s then later else t ∷ later

unfoldable pub remove_key {ℓ} : {A : Type ℓ} → Text → Dict A → Dict A
remove_key k [] = []
remove_key k ((j, a) ∷ rest) =
    let later = remove_key k rest in if text_eq j k then later else (j, a) ∷ later

unfoldable pub mark_untrackable : Text → FileTracker → FileTracker
mark_untrackable path t = record t { untrackable = path ∷ t.untrackable }

module _ (to_lower : Text → Text) where
  unfoldable pub is_non_file_source : Text → Bool
  is_non_file_source source =
      if is_empty source then false else has_some_prefix (to_lower source) non_file_scheme_prefixes

  -- An error leaves the tracker as it is.
  unfoldable pub track : Disk → Text → FileTracker → FileTracker
  track disk path t =
      if is_non_file_source path then mark_untrackable path t else elim (disk path) [
        | none ↦ t
        | some state ↦ record t {
          files = put path state t.files;
          untrackable = remove_text path t.untrackable;
        }
      ]

  unfoldable pub track_all : Disk → List Text → FileTracker → FileTracker
  track_all disk [] t = t
  track_all disk (path ∷ paths) t = track_all disk paths (track disk path t)

  -- The comparison with the recorded state.
  unfoldable pub compare_state :
      Option FileState → Text → FileState → FileTracker → Bool × FileTracker
  compare_state none path old t =
      (false, record t { files = remove_key path t.files; untrackable = path ∷ t.untrackable })
  compare_state (some current) path old t = (not (text_eq current.hash old.hash), t)

  unfoldable pub has_changed : Disk → Text → FileTracker → Bool × FileTracker
  has_changed disk path t =
      if contains_text t.untrackable path
      then (false, t)
      else if is_non_file_source path
      then (false, mark_untrackable path t)
      else elim (find path t.files) [
        | none ↦ (true, t)
        | some old ↦ compare_state (disk path) path old t
      ]

  unfoldable pub is_trackable : Text → FileTracker → Bool
  is_trackable path t =
      if is_non_file_source path then false else not (contains_text t.untrackable path)

  unfoldable pub get_changed_files : Disk → List Text → FileTracker → List Text × FileTracker
  get_changed_files disk [] t = ([], t)
  get_changed_files disk (p ∷ paths) t =
      let (changed, t1) = has_changed disk p t in
      let (rest, t2) = get_changed_files disk paths t1 in (if changed then p ∷ rest else rest, t2)
