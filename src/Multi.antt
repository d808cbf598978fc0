-- ===== src/Multi.antt =====
-- secret/multi.go: the store that asks several secret stores in the order of their priority.
-- A store may read and change anything outside: `W` is that world, which every call takes and returns,
-- and `E` is the type of the errors. The context is a function that reads its error off the world.
-- `errors.Is` on an error of a store is a parameter. Log lines and the text of an error are left out.
pub mod Canceled
pub mod Masking
use confii_go.Base.{
  ℕ, suc, ◌+◌, Bool, true, false, not, ◌&&◌, ◌||◌, Option, none, some, List, [], ◌∷◌, ◌++◌,
}
use confii_go.Base.{Text, codes, length, contains_text, if◌then◌else◌}
use confii_go.Value.{Value}

-- What a store returns from GetSecret. A nil value is `none`.
pub record Answer (W E : Type 0) : Type 0 where
  pub val : Option Value
  pub get_err : Option E
  pub get_world : W

pub record Listing (W E : Type 0) : Type 0 where
  pub listed : List Text
  pub list_err : Option E
  pub list_world : W

-- An error of a store or of the context, or the one that stands for a nil value.
pub data Failure (E : Type 0) : Type 0 where
  reported : E → Failure E
  no_value : Text → Failure E

pub record MultiStoreErrorEntry (E : Type 0) : Type 0 where
  pub index : ℕ
  pub store_name : Text
  pub entry_err : Option (Failure E)

-- What MultiStore's operations return: an error as it is, the error after the last store, or the
-- aggregate of the stores' errors.
pub data MultiError (E : Type 0) : Type 0 where
  plain : Failure E → MultiError E
  exhausted : Text → ℕ → MultiError E
  aggregate : Text → Text → List (MultiStoreErrorEntry E) → MultiError E

pub data SecretOutcome (E : Type 0) : Type 0 where
  found : Value → SecretOutcome E
  failed : MultiError E → SecretOutcome E

-- What the loop makes of one store: its value, an end of the call, or a failure that is not a
-- cancellation.
pub data Consulted (W E : Type 0) : Type 0 where
  took : Value → W → Consulted W E
  ended : Failure E → W → Consulted W E
  erred : Failure E → W → Consulted W E

module _ (W E : Type 0) where
  pub record Store : Type 0 where
    pub name : Text
    pub get : Text → W → Answer W E
    pub put_secret : Text → Value → W → Option E × W
    pub remove : Text → W → Option E × W
    pub list : Text → W → Listing W E

  pub record MultiStore : Type 0 where
    pub stores : List Store
    pub write_to_first : Bool

  -- `err == nil && val != nil`
  abbrev pub taken : Answer W E → Option Value
  taken a = elim a.get_err [ none ↦ a.val | some e ↦ none ]

  abbrev pub failure_of : Text → Answer W E → Failure E
  failure_of key a = elim a.get_err [ none ↦ no_value key | some e ↦ reported e ]

  module _ (is_not_found is_canceled : E → Bool) where
    -- `errors.Is(err, confii.ErrSecretNotFound)`
    abbrev pub missing : Failure E → Bool
    missing (reported e) = is_not_found e
    missing (no_value key) = true

    abbrev pub cancellation : Failure E → Bool
    cancellation (reported e) = is_canceled e
    cancellation (no_value key) = false

    -- The first loop of `Unwrap`.
    unfoldable pub has_real : List (MultiStoreErrorEntry E) → Bool
    has_real [] = false
    has_real (entry ∷ entries) =
        let later = has_real entries in
        elim entry.entry_err [ none ↦ later | some f ↦ not (missing f) || later ]

    -- The second loop of `Unwrap`.
    unfoldable pub unwrap_loop : Bool → List (MultiStoreErrorEntry E) → List (Failure E)
    unwrap_loop real [] = []
    unwrap_loop real (entry ∷ entries) =
        let later = unwrap_loop real entries in
        elim entry.entry_err [
          | none ↦ later
          | some f ↦ if real && missing f then later else f ∷ later
        ]

    unfoldable pub unwrap : List (MultiStoreErrorEntry E) → List (Failure E)
    unwrap entries = unwrap_loop (has_real entries) entries

    module _ (ctx_err : W → Option E × W) where
      -- The test for a cancellation. The error of a context stays once it is there, so one read
      -- stands for the ones that follow each other.
      unfoldable pub failing : Failure E → W → Consulted W E
      failing f w =
          let (after, w1) = ctx_err w in
          elim after [
            | some e ↦ ended (reported e) w1
            | none ↦ elim (cancellation f) [ true ↦ ended f w1 | false ↦ erred f w1 ]
          ]

      -- The body of the loop of `GetSecret`, up to the entry of the store.
      unfoldable pub consult : Text → Store → W → Consulted W E
      consult key s w =
          let (before, w1) = ctx_err w in
          elim before [
            | some e ↦ ended (reported e) w1
            | none ↦
                let a = s.get key w1 in
                elim (taken a) [
                  | some v ↦ took v a.get_world
                  | none ↦ failing (failure_of key a) a.get_world
                ]
          ]

      unfoldable pub get_loop :
          ℕ → ℕ → List (MultiStoreErrorEntry E) → Text → List Store → W → SecretOutcome E × W
      get_loop total index entries key [] w = (failed (exhausted key total), w)
      get_loop total index entries key (s ∷ rest) w = elim (consult key s w) [
        | took v w1 ↦ (found v, w1)
        | ended f w1 ↦ (failed (plain f), w1)
        | erred f w1 ↦
            let entries' =
              entries ++ (record { index = index; store_name = s.name; entry_err = some f } ∷ []) in
            elim (missing f) [
              | true ↦ get_loop total (index + 1) entries' key rest w1
              | false ↦ (failed (aggregate (codes "GetSecret") key entries'), w1)
            ]
      ]

      unfoldable pub get_secret : MultiStore → Text → W → SecretOutcome E × W
      get_secret m key w = get_loop (length m.stores) 0 [] key m.stores w

      -- The loops of `SetSecret` and `DeleteSecret`, on what they do to one store.
      unfoldable pub write_loop : (Store → W → Option E × W) → List Store → W → Option E × W
      write_loop write [] w = (none, w)
      write_loop write (s ∷ rest) w =
          let (before, w1) = ctx_err w in
          elim before [
            | some e ↦ (some e, w1)
            | none ↦
                let (e, w2) = write s w1 in
                elim e [ some err ↦ (some err, w2) | none ↦ write_loop write rest w2 ]
          ]

      unfoldable pub write_stores : MultiStore → (Store → W → Option E × W) → W → Option E × W
      write_stores m write w = elim m.stores [
        | [] ↦ (none, w)
        | s ∷ rest ↦ if m.write_to_first then write s w else write_loop write (s ∷ rest) w
      ]

      unfoldable pub set_secret : MultiStore → Text → Value → W → Option E × W
      set_secret m key value w = write_stores m (λ s w1. s.put_secret key value w1) w

      unfoldable pub delete_secret : MultiStore → Text → W → Option E × W
      delete_secret m key w = write_stores m (λ s w1. s.remove key w1) w

      -- The keys that were not seen before.
      unfoldable pub add_keys : List Text → List Text → List Text
      add_keys result [] = result
      add_keys result (k ∷ ks) =
          add_keys (if contains_text result k then result else result ++ (k ∷ [])) ks

      unfoldable pub list_loop :
          ℕ
          → List (MultiStoreErrorEntry E)
          → List Text
          → Text
          → List Store
          → W
          → List Text × Option (MultiError E) × W
      list_loop index [] result prefix [] w = (result, none, w)
      list_loop index (entry ∷ entries) result prefix [] w =
          (result, some (aggregate (codes "ListSecrets") prefix (entry ∷ entries)), w)
      list_loop index entries result prefix (s ∷ rest) w =
          let (before, w1) = ctx_err w in
          elim before [
            | some e ↦ (result, some (plain (reported e)), w1)
            | none ↦
                let l = s.list prefix w1 in
                elim l.list_err [
                  | none ↦
                      list_loop (index + 1) entries (add_keys result l.listed) prefix rest
                        l.list_world
                  | some e ↦ elim (failing (reported e) l.list_world) [
                    | took v w2 ↦ (result, none, w2)
                    | ended f w2 ↦ (result, some (plain f), w2)
                    | erred f w2 ↦
                        list_loop (index + 1)
                          (entries
                            ++ (record { index = index; store_name = s.name; entry_err = some f }
                                ∷ []))
                          result prefix rest w2
                  ]
                ]
          ]

      unfoldable pub list_secrets : MultiStore → Text → W → List Text × Option (MultiError E) × W
      list_secrets m prefix w = list_loop 0 [] [] prefix m.stores w
