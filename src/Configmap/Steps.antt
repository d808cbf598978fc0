-- ===== src/Configmap/Steps.antt =====
-- The three branches of one round of `Set`, as equations.
use confii_go.Base.{◌≡◌, none, some, Option, List, [], ◌∷◌, ◌++◌, Text}
use confii_go.Base.Split.{join}
use confii_go.Value.{Value, Fields, mapping}
use confii_go.Value.Maps.{lookup, insert, as_map}
use confii_go.Configmap.{PathError, path_conflict, dot, build_branch, assign}

module _ (path : Text) (before : List Text) (part following : Text) (rest : List Text) (m : Fields)
    (value : Value) where
  pub assign_missing :
      lookup part m ≡ none
      → assign path before part (following ∷ rest) m value
        ≡ (insert part (mapping (build_branch following rest value)) m, none)
  unfolding assign
  assign_missing e = rw (e, assign)

  pub assign_blocked :
      (next : Value)
      → lookup part m ≡ some next
      → as_map next ≡ none
      → assign path before part (following ∷ rest) m value ≡ (
        m,
        some
            (record { path = path; segment = join dot (before ++ part ∷ []); err = path_conflict }),
      )
  unfolding assign
  assign_blocked next e f = rw (e, assign) (rw (f, assign))

  pub assign_nested :
      (next : Value) (nested : Fields)
      → lookup part m ≡ some next
      → as_map next ≡ some nested
      → let written : Fields × Option PathError =
          assign path (before ++ part ∷ []) following rest nested value in
        assign path before part (following ∷ rest) m value
        ≡ (insert part (mapping written.0) m, written.1)
  unfolding assign
  assign_nested next nested e f = rw (e, assign) (rw (f, assign))
