-- ===== src/Load/Conflicts.antt =====
-- mixedEnvironmentConflicts of config_environment_strategy.go: the keys that both an environment
-- section and an environment file write.
use confii_go.Base.{Bool, true, false, not, ◌&&◌, ◌||◌, none, some, List, [], ◌∷◌, ◌++◌}
use confii_go.Base.{Text, text_lt, contains_text, if◌then◌else◌}
use confii_go.Base.Dict.{Dict, find, put}

-- The families of a writer.
pub data Family : Type 0 where
  from_section : Family
  from_named_file : Family

pub record Writer : Type 0 where
  pub family : Family
  pub source : Text

pub record Conflict : Type 0 where
  pub key : Text
  pub sources : List Text
  pub last_writer : Text

abbrev pub is_section : Family → Bool
is_section from_section = true
is_section from_named_file = false

unfoldable pub has_sectioned : List Writer → Bool
has_sectioned [] = false
has_sectioned (w ∷ ws) = is_section w.family || has_sectioned ws

unfoldable pub has_named : List Writer → Bool
has_named [] = false
has_named (w ∷ ws) = not (is_section w.family) || has_named ws

-- The sources of the writers, each once, in the order of their first write.
unfoldable pub distinct_sources : List Text → List Writer → List Text
distinct_sources sources [] = sources
distinct_sources sources (w ∷ ws) =
    distinct_sources
      (if contains_text sources w.source then sources else sources ++ (w.source ∷ [])) ws

unfoldable pub last_source : Writer → List Writer → Text
last_source w [] = w.source
last_source w (next ∷ ws) = last_source next ws

unfoldable pub insert_conflict : Conflict → List Conflict → List Conflict
insert_conflict c [] = c ∷ []
insert_conflict c (d ∷ ds) =
    let later = insert_conflict c ds in if text_lt d.key c.key then d ∷ later else c ∷ d ∷ ds

-- The body of the loop over the keys: `rest` are the conflicts of the other keys.
unfoldable pub add_conflict : Text → List Writer → List Conflict → List Conflict
add_conflict key [] rest = rest
add_conflict key (w ∷ ws) rest =
    if has_sectioned (w ∷ ws) && has_named (w ∷ ws)
    then insert_conflict
        (record {
          key = key;
          sources = distinct_sources [] (w ∷ ws);
          last_writer = last_source w ws;
        })
        rest
    else rest

-- The keys are distinct, so the sorted result does not depend on the order of the iteration.
unfoldable pub mixed_environment_conflicts : Dict (List Writer) → List Conflict
mixed_environment_conflicts [] = []
mixed_environment_conflicts ((key, ws) ∷ writers) =
    add_conflict key ws (mixed_environment_conflicts writers)

unfoldable pub writers_of : Text → Dict (List Writer) → List Writer
writers_of k writers = elim (find k writers) [ none ↦ [] | some ws ↦ ws ]

-- `writers[key] = append(writers[key], writer)` for the keys of a layer.
unfoldable pub add_writer : Writer → List Text → Dict (List Writer) → Dict (List Writer)
add_writer w [] writers = writers
add_writer w (k ∷ ks) writers = add_writer w ks (put k (writers_of k writers ++ (w ∷ [])) writers)
