-- ===== src/Tests/Materials.antt =====
-- A hook on the values of a map.
use confii_go.Base.{
  ◌∙◌, true, contains_text, arith, ◌≡◌, refl, ℕ, ◌+◌, Option, none, some, [], ◌∷◌, Text, codes,
  text_eq,
}
use confii_go.Value.Maps.{keys, lookup}
use confii_go.Materialize.Workers.{apply_secret_hook_map_parallel, run_workers, end_job, gather}
use confii_go.Materialize.Workers.Whole.{
  jobs_of, cancellations, apply_secret_hook_map_parallel-whole,
}
use confii_go.Base.Sort.{sort_texts}
use confii_go.Base.Dict.{find, put}
use confii_go.Materialize.Workers.Schedules.{ended}
use confii_go.Value.{Value, Fields, null, end, field}
use confii_go.Hook.{Func, Processor}
use confii_go.Materialize.{Resolved, resolved}
use confii_go.Tests.Data.{host}

abbrev live : ℕ → Option Text × ℕ
live w = (none, w)

abbrev fetch : Func ℕ Text
fetch key v w = record { value = host; err = none; world = w + 1 }

abbrev fetching : Processor ℕ Text
fetching = record {
  revision = 1;
  key_hooks = [];
  value_hooks = [];
  condition_hooks = [];
  global_hooks = fetch ∷ [];
}

abbrev two_keys : Fields
two_keys = field (codes "a") null (field (codes "b") null end)

abbrev hosts : Fields
hosts = field (codes "a") host (field (codes "b") host end)

abbrev look_up : Text → Resolved Text Value
look_up key = resolved host

-- The job of the second key ends first.
swapped_covers :
    (k : Text) → contains_text (codes "b" ∷ codes "a" ∷ []) k ≡ contains_text (keys two_keys) k
unfolding contains_text keys
swapped_covers k = ground arith

swapped_end :
    (j : Text)
    → contains_text (keys two_keys) j ≡ true
    → contains_text (jobs_of (ended {E = Text} (codes "b" ∷ codes "a" ∷ []))) j ≡ true
unfolding jobs_of ended
swapped_end j h = swapped_covers j ∙ h

apply_secret_hook_map_parallel-whole_example :
    (v : Value) × (look_up (codes "a") ≡ resolved v)
    × (lookup (codes "a") hosts ≡ some v)
    × (cancellations (ended {E = Text} (codes "b" ∷ codes "a" ∷ [])) ≡ [])
unfolding keys contains_text text_eq apply_secret_hook_map_parallel run_workers ended end_job gather
    sort_texts put find confii_go.Base.text_lt
apply_secret_hook_map_parallel-whole_example =
    apply_secret_hook_map_parallel-whole look_up (ended (codes "b" ∷ codes "a" ∷ [])) two_keys hosts
      (codes "a") swapped_end refl refl
