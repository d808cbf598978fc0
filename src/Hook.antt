-- ===== src/Hook.antt =====
-- hook/processor.go: the registry of hooks and the pipeline that runs them.
-- A hook may read and change anything outside: `W` is that world, which every call takes and returns,
-- and `E` is the type of its errors. The context is a function that reads its error off the world.
-- The locks are left out, since each operation runs under one. A context that is nil is left out.
pub mod Order
use confii_go.Base.{ℕ, ◌+◌, ◌%◌, ◌^◌, Bool, true, false, Option, none, some, List, [], ◌∷◌, ◌++◌}
use confii_go.Base.{Text, if◌then◌else◌}
use confii_go.Base.Dict.{Dict, find, put}
use confii_go.Value.{Value}
use confii_go.Value.Equality.{deep_equal}

-- What a hook returns: a value, an error if there is one, and the world after the call.
pub record Reply (W E : Type 0) : Type 0 where
  pub value : Value
  pub err : Option E
  pub world : W

pub record Verdict (W E : Type 0) : Type 0 where
  pub matched : Bool
  pub condition_err : Option E
  pub next_world : W

module _ (W E : Type 0) where
  abbrev pub Func : Type 0
  Func = Text → Value → W → Reply W E

  abbrev pub Condition : Type 0
  Condition = Text → Value → W → Verdict W E

  pub record ValueEntry : Type 0 where
    pub matching : Value
    pub hooks : List Func

  pub record ConditionEntry : Type 0 where
    pub cond : Condition
    pub hook : Func

  pub record Processor : Type 0 where
    pub revision : ℕ
    pub key_hooks : Dict (List Func)
    pub value_hooks : List ValueEntry
    pub condition_hooks : List ConditionEntry
    pub global_hooks : List Func

  unfoldable pub new_processor : Processor
  new_processor = record {
    revision = 0;
    key_hooks = [];
    value_hooks = [];
    condition_hooks = [];
    global_hooks = [];
  }

  -- `p.revision++` on a uint64.
  abbrev pub next_revision : ℕ → ℕ
  next_revision r = (r + 1) % 2 ^ 64

  -- The hooks of a key, none where it has no entry.
  unfoldable pub hooks_of : Text → Dict (List Func) → List Func
  hooks_of key hooks = elim (find key hooks) [ none ↦ [] | some hs ↦ hs ]

  -- A registration of a nil hook panics, which is the result `none`.
  unfoldable pub register_key_hook : Text → Option Func → Processor → Option Processor
  register_key_hook key none p = none
  register_key_hook key (some h) p = some (record p {
    key_hooks = put key (hooks_of key p.key_hooks ++ (h ∷ [])) p.key_hooks;
    revision = next_revision p.revision;
  })

  -- The loop over the entries, and the new entry after it.
  unfoldable pub add_value_hook : Value → Func → List ValueEntry → List ValueEntry
  add_value_hook value h [] = record { matching = value; hooks = h ∷ [] } ∷ []
  add_value_hook value h (entry ∷ rest) = elim (deep_equal entry.matching value) [
    | true ↦ record entry { hooks = entry.hooks ++ (h ∷ []) } ∷ rest
    | false ↦ entry ∷ add_value_hook value h rest
  ]

  unfoldable pub register_value_hook : Value → Option Func → Processor → Option Processor
  register_value_hook value none p = none
  register_value_hook value (some h) p = some (record p {
    value_hooks = add_value_hook value h p.value_hooks;
    revision = next_revision p.revision;
  })

  unfoldable pub register_condition_hook :
      Option Condition → Option Func → Processor → Option Processor
  register_condition_hook (some cond) (some h) p = some (record p {
    condition_hooks = p.condition_hooks ++ (record { cond = cond; hook = h } ∷ []);
    revision = next_revision p.revision;
  })
  register_condition_hook _ _ p = none

  unfoldable pub register_global_hook : Option Func → Processor → Option Processor
  register_global_hook none p = none
  register_global_hook (some h) p =
      some (record p {
        global_hooks = p.global_hooks ++ (h ∷ []);
        revision = next_revision p.revision;
      })

  unfoldable pub matching_value_hooks : Value → List ValueEntry → List Func
  matching_value_hooks value [] = []
  matching_value_hooks value (entry ∷ rest) = elim (deep_equal entry.matching value) [
    | true ↦ entry.hooks
    | false ↦ matching_value_hooks value rest
  ]

  -- A step that returns an error ends the pipeline.
  unfoldable pub and_then : Reply W E → (Value → W → Reply W E) → Reply W E
  and_then r next = elim r.err [ some e ↦ r | none ↦ next r.value r.world ]

  module _ (ctx_err : W → Option E × W) where
    -- `if err := ctx.Err(); err != nil { return value, err }`
    unfoldable pub poll_context : (Value → W → Reply W E) → Value → W → Reply W E
    poll_context next value w =
        let (e, w1) = ctx_err w in
        elim e [
          | some err ↦ record { value = value; err = some err; world = w1 }
          | none ↦ next value w1
        ]

    unfoldable pub run_hooks : List Func → Text → Value → W → Reply W E
    run_hooks [] key value w = record { value = value; err = none; world = w }
    run_hooks (h ∷ hs) key value w =
        poll_context (λ v w1. and_then (h key v w1) (run_hooks hs key)) value w

    unfoldable pub run_conditions : List ConditionEntry → Text → Value → W → Reply W E
    run_conditions [] key value w = record { value = value; err = none; world = w }
    run_conditions (entry ∷ rest) key value w =
        poll_context
          (λ v w1.
            let verdict = entry.cond key v w1 in
            elim verdict.condition_err [
              | some e ↦ record { value = v; err = some e; world = verdict.next_world }
              | none ↦ elim verdict.matched [
                | true ↦ and_then (entry.hook key v verdict.next_world) (run_conditions rest key)
                | false ↦ run_conditions rest key v verdict.next_world
              ]
            ])
          value w

    -- `Process` on the plan that `Snapshot` captures, which is the processor itself.
    unfoldable pub process : Processor → Text → Value → W → Reply W E
    process p key value w =
        poll_context
          (λ v w0. and_then (run_hooks (hooks_of key p.key_hooks) key v w0) (λ v1 w1.
            and_then (run_hooks (matching_value_hooks v1 p.value_hooks) key v1 w1) (λ v2 w2.
              and_then (run_conditions p.condition_hooks key v2 w2)
                (run_hooks p.global_hooks key))))
          value w
