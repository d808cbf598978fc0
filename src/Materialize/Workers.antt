-- ===== src/Materialize/Workers.antt =====
-- config_materialize.go: the resolution of a map by parallel workers.
-- `outcome` is what a worker's job makes of the entry of a key, so the hooks are those whose results do
-- not depend on each other's calls. The run of the workers is the list of the jobs in the order in which
-- they end, with the cancellation of the context of the caller among them. A job that a worker drops
-- after a cancellation is not in it.
pub mod Schedules
pub mod Agreement
pub mod Whole
use confii_go.Base.{ℕ, ◌&&◌, Option, none, some, List, [], ◌∷◌, Text, ltb, if◌then◌else◌}
use confii_go.Base.Sort.{sort_texts}
use confii_go.Base.Dict.{Dict, find, put}
use confii_go.Value.{Value, Fields, null, end, field}
use confii_go.Value.Maps.{keys, count_fields}
use confii_go.Hook.{Processor}
use confii_go.Materialize.{Resolved, resolved, halted, on_resolved, materialize_fields}

-- `values`, with the slot of a key for its index, and the cause of the cancellation.
pub record Slots (E : Type 0) : Type 0 where
  pub filled : Dict Value
  pub cause : Option E

-- The map that is made of the slots. A slot that was not written is nil.
unfoldable pub gather : Dict Value → List Text → Fields
gather filled [] = end
gather filled (key ∷ ks) =
    field key (elim (find key filled) [ none ↦ null | some v ↦ v ]) (gather filled ks)

pub data Event (E : Type 0) : Type 0 where
  job_ended : Text → Event E
  caller_canceled : E → Event E

-- `cancel` of a context that has a cause already leaves it.
abbrev pub first_cause : {E : Type 0} → E → Option E → Option E
first_cause e none = some e
first_cause e (some first) = some first

module _ {E : Type 0} (outcome : Text → Resolved E Value) where
  -- The end of a job.
  unfoldable pub end_job : Text → Slots E → Slots E
  end_job key s = elim (outcome key) [
    | resolved v ↦ record s { filled = put key v s.filled }
    | halted e ↦ record s { cause = first_cause e s.cause }
  ]

  unfoldable pub run_workers : List (Event E) → Slots E → Slots E
  run_workers [] s = s
  run_workers (job_ended key ∷ events) s = run_workers events (end_job key s)
  run_workers (caller_canceled e ∷ events) s =
      run_workers events (record s { cause = first_cause e s.cause })

  -- `context.Cause(workCtx)` is that of the first cancellation, by a job or by the caller.
  unfoldable pub apply_secret_hook_map_parallel : List (Event E) → Fields → Resolved E Fields
  apply_secret_hook_map_parallel events source =
      let s = run_workers events (record { filled = []; cause = none }) in
      elim s.cause [
        | some e ↦ halted e
        | none ↦ resolved (gather s.filled (sort_texts (keys source)))
      ]

module _ (W E : Type 0) (ctx_err : W → Option E × W) (p : Processor W E) where
  -- `applySecretHookRecursive`, and `applySecretHookRecursiveMode` with parallel set. A nil map stays
  -- nil. `finished` is the world that the workers leave.
  unfoldable pub apply_secret_hook_recursive :
      ℕ
      → (Text → Resolved E Value)
      → List (Event E)
      → W
      → Text
      → Option Fields
      → W
      → Resolved E (Option Fields) × W
  apply_secret_hook_recursive concurrency outcome events finished path none w = (resolved none, w)
  apply_secret_hook_recursive concurrency outcome events finished path (some m) w =
      on_resolved
        (if ltb 1 concurrency && ltb 1 (count_fields m)
          then (apply_secret_hook_map_parallel outcome events m, finished)
          else materialize_fields W E ctx_err p path m w)
        (λ m' w1. (resolved (some m'), w1))
