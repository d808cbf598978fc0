-- ===== src/Multi/Masking.antt =====
-- secret/multi.go: what a result of GetSecret says of the stores.
use mathlib.Core.Path.{subst}
use confii_go.Base.{
  ◌≡◌, refl, ap, ℕ, ◌+◌, Bool, true, false, not, ◌&&◌, ◌||◌, Option, none, some, List, [], ◌∷◌,
  ◌++◌, arith, if◌then◌else◌,
}
use confii_go.Base.{Text, codes, length}
use confii_go.Value.{Value}
use confii_go.Multi.{
  Failure, MultiStoreErrorEntry, MultiError, plain, exhausted, aggregate, SecretOutcome, found,
  failed, Consulted, took, ended, erred, Store, MultiStore, missing, has_real, unwrap_loop, unwrap,
  consult, get_loop, get_secret,
}
use confii_go.Multi.Canceled.{Canceled, consult-ended}

module _ {W E : Type 0} (is_not_found is_canceled : E → Bool) (ctx_err : W → Option E × W) where
  -- The stores were asked in order, and each of them misses the key.
  pub data Missed (key : Text) : List (Store W E) → W → W → Type 0 where
    all_missed : {w : W} → Missed key [] w w
    missed :
        {rest : List (Store W E)} {w w1 w2 : W} (s : Store W E) (f : Failure E)
        → consult W E is_not_found is_canceled ctx_err key s w ≡ erred f w1
        → missing W E is_not_found is_canceled f ≡ true
        → Missed key rest w1 w2
        → Missed key (s ∷ rest) w w2

  any_missing : List (Failure E) → Bool
  any_missing [] = false
  any_missing (f ∷ fs) = missing W E is_not_found is_canceled f || any_missing fs

  -- `errors.Is(err, confii.ErrSecretNotFound)` on what GetSecret returns.
  unfoldable pub says_missing : MultiError E → Bool
  unfolding any_missing
  says_missing (plain f) = missing W E is_not_found is_canceled f
  says_missing (exhausted key total) = true
  says_missing (aggregate op key entries) =
      any_missing (unwrap W E is_not_found is_canceled entries)

  any_missing-unwrap_loop :
      (entries : List (MultiStoreErrorEntry E))
      → any_missing (unwrap_loop W E is_not_found is_canceled true entries) ≡ false
  unfolding any_missing unwrap_loop
  any_missing-unwrap_loop [] = refl
  any_missing-unwrap_loop (entry ∷ entries) =
      go entry.entry_err (unwrap_loop W E is_not_found is_canceled true entries)
        (any_missing-unwrap_loop entries)
    where
      go :
          (o : Option (Failure E)) (kept : List (Failure E))
          → any_missing kept ≡ false
          → any_missing (elim o [
            | none ↦ kept
            | some f ↦ if true && missing W E is_not_found is_canceled f then kept else f ∷ kept
          ])
            ≡ false
      go none kept h = h
      go (some f) kept h = ground arith

  has_real-append :
      (entries : List (MultiStoreErrorEntry E)) (entry : MultiStoreErrorEntry E) (f : Failure E)
      → entry.entry_err ≡ some f
      → missing W E is_not_found is_canceled f ≡ false
      → has_real W E is_not_found is_canceled (entries ++ (entry ∷ [])) ≡ true
  unfolding has_real
  has_real-append [] entry f h e = rw h (rw e refl)
  has_real-append (first ∷ entries) entry f h e =
      go first.entry_err (has_real-append entries entry f h e)
    where
      go :
          (o : Option (Failure E)) {b : Bool}
          → b ≡ true
          → (elim o [ none ↦ b | some g ↦ not (missing W E is_not_found is_canceled g) || b ])
            ≡ true
      go none x = x
      go (some g) x = ground arith

  unmasked :
      (op key : Text) (entries : List (MultiStoreErrorEntry E))
      → has_real W E is_not_found is_canceled entries ≡ true
      → says_missing (aggregate op key entries) ≡ false
  unfolding says_missing unwrap any_missing
  unmasked op key entries h = rw h (any_missing-unwrap_loop entries)

  -- The stores before the one that has the value.
  FoundAt : Text → List (Store W E) → W → Value → W → Type 0
  FoundAt key stores w v w' =
      (before : List (Store W E)) × (s : Store W E) × (after : List (Store W E)) × (wi : W)
      × (stores ≡ before ++ (s ∷ after))
      × Missed key before w wi
      × (consult W E is_not_found is_canceled ctx_err key s wi ≡ took v w')

  FoundAt-step :
      (key : Text) (s : Store W E) (f : Failure E) (rest : List (Store W E)) (w w1 : W) (v : Value)
      (w' : W)
      → consult W E is_not_found is_canceled ctx_err key s w ≡ erred f w1
      → missing W E is_not_found is_canceled f ≡ true
      → FoundAt key rest w1 v w'
      → FoundAt key (s ∷ rest) w v w'
  unfolding FoundAt
  FoundAt-step key s f rest w w1 v w' h m (before, t, after, wi, e, missed_all, x) =
      (s ∷ before, t, after, wi, ap (λ ts. s ∷ ts) e, missed s f h m missed_all, x)

  -- The search was given up at a store, after each store before it has missed the key.
  abbrev pub CanceledAt : Text → List (Store W E) → W → Failure E → W → Type 0
  CanceledAt key stores w f w' =
      (before : List (Store W E)) × (s : Store W E) × (after : List (Store W E)) × (wi : W)
      × (stores ≡ before ++ (s ∷ after))
      × Missed key before w wi
      × Canceled is_not_found is_canceled ctx_err key s wi f w'

  -- What a result of the loop says.
  Explained : Text → List (Store W E) → W → SecretOutcome E → W → Type 0
  unfolding FoundAt
  Explained key stores w (found v) w' = FoundAt key stores w v w'
  Explained key stores w (failed (exhausted k n)) w' = Missed key stores w w'
  Explained key stores w (failed (aggregate op k entries)) w' =
      says_missing (aggregate op k entries) ≡ false
  Explained key stores w (failed (plain f)) w' = CanceledAt key stores w f w'

  Explained-step :
      (key : Text) (s : Store W E) (f : Failure E) (rest : List (Store W E)) (w w1 : W)
      (o : SecretOutcome E) (w' : W)
      → consult W E is_not_found is_canceled ctx_err key s w ≡ erred f w1
      → missing W E is_not_found is_canceled f ≡ true
      → Explained key rest w1 o w'
      → Explained key (s ∷ rest) w o w'
  unfolding Explained FoundAt
  Explained-step key s f rest w w1 (found v) w' h m x = FoundAt-step key s f rest w w1 v w' h m x
  Explained-step key s f rest w w1 (failed (exhausted k n)) w' h m x = missed s f h m x
  Explained-step key s f rest w w1 (failed (aggregate op k entries)) w' h m x = x
  Explained-step key s f rest w w1 (failed (plain g)) w' h m
        (before, t, after, wi, e, missed_all, x) =
      (s ∷ before, t, after, wi, ap (λ ts. s ∷ ts) e, missed s f h m missed_all, x)

  abbrev entry_of : ℕ → Store W E → Failure E → MultiStoreErrorEntry E
  entry_of index s f = record { index = index; store_name = s.name; entry_err = some f }

  -- The part of the loop after a failure of a store.
  after_failure :
      (total index : ℕ) (entries : List (MultiStoreErrorEntry E)) (key : Text) (s : Store W E)
      (rest : List (Store W E)) (w w1 : W) (f : Failure E) (b : Bool)
      → missing W E is_not_found is_canceled f ≡ b
      → consult W E is_not_found is_canceled ctx_err key s w ≡ erred f w1
      → (r : SecretOutcome E × W) → Explained key rest w1 r.0 r.1
      → (λ (x : SecretOutcome E × W). Explained key (s ∷ rest) w x.0 x.1)
          (elim b [
            | true ↦ r
            | false ↦ (
              failed (aggregate (codes "GetSecret") key (entries ++ (entry_of index s f ∷ []))),
              w1,
            )
          ])
  unfolding Explained
  after_failure total index entries key s rest w w1 f true m h r x =
      Explained-step key s f rest w w1 r.0 r.1 h m x
  after_failure total index entries key s rest w w1 f false m h r x =
      unmasked (codes "GetSecret") key (entries ++ (entry_of index s f ∷ []))
        (has_real-append entries (entry_of index s f) f refl m)

  get_loop-Explained :
      (total index : ℕ) (entries : List (MultiStoreErrorEntry E)) (key : Text)
      (stores : List (Store W E)) (w : W)
      → (λ (x : SecretOutcome E × W). Explained key stores w x.0 x.1)
          (get_loop W E is_not_found is_canceled ctx_err total index entries key stores w)
  unfolding get_loop Explained FoundAt
  get_loop-Explained total index entries key [] w = all_missed
  get_loop-Explained total index entries key (s ∷ rest) w =
      go (consult W E is_not_found is_canceled ctx_err key s w) refl (λ f w1.
        get_loop-Explained total (index + 1) (entries ++ (entry_of index s f ∷ [])) key rest w1)
    where
      later : Failure E → W → SecretOutcome E × W
      later f w1 =
          get_loop W E is_not_found is_canceled ctx_err total (index + 1)
            (entries ++ (entry_of index s f ∷ [])) key rest w1

      go :
          (c : Consulted W E)
          → consult W E is_not_found is_canceled ctx_err key s w ≡ c
          → ((f : Failure E) (w1 : W) → Explained key rest w1 (later f w1).0 (later f w1).1)
          → (λ (x : SecretOutcome E × W). Explained key (s ∷ rest) w x.0 x.1)
              (elim c [
                | took v w1 ↦ (found v, w1)
                | ended f w1 ↦ (failed (plain f), w1)
                | erred f w1 ↦ elim (missing W E is_not_found is_canceled f) [
                  | true ↦ later f w1
                  | false ↦ (
                    failed
                        (aggregate (codes "GetSecret") key (entries ++ (entry_of index s f ∷ []))),
                    w1,
                  )
                ]
              ])
      go (took v w1) h x = ([], s, rest, w, refl, all_missed, h)
      go (ended f w1) h x = (
        [],
        s,
        rest,
        w,
        refl,
        all_missed,
        consult-ended is_not_found is_canceled ctx_err key s w w1 f h,
      )
      go (erred f w1) h x =
          after_failure total index entries key s rest w w1 f
            (missing W E is_not_found is_canceled f) refl h (later f w1) (x f w1)

  -- A value that GetSecret returns is that of a store to which each store before it in the order,
  -- asked in turn, has reported that the key is missing.
  pub get_secret-found :
      (m : MultiStore W E) (key : Text) (w w' : W) (v : Value)
      → get_secret W E is_not_found is_canceled ctx_err m key w ≡ (found v, w')
      → (before : List (Store W E)) × (s : Store W E) × (after : List (Store W E)) × (wi : W)
        × (m.stores ≡ before ++ (s ∷ after))
        × Missed key before w wi
        × (consult W E is_not_found is_canceled ctx_err key s wi ≡ took v w')
  unfolding get_secret Explained FoundAt
  get_secret-found m key w w' v h =
      subst (λ (x : SecretOutcome E × W). Explained key m.stores w x.0 x.1) h
        (get_loop-Explained (length m.stores) 0 [] key m.stores w)
