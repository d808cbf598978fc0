-- ===== src/Merge/Runs.antt =====
-- The rule for the loops of this package: each visits the entries of one map, and writes, leaves or
-- fails for each by itself.
use mathlib.Core.Option.{some-injective}
use confii_go.Base.{sym, ◌≡◌, refl, ◌∙◌, ap, Option, none, some, arith, ◌>>=◌}
use confii_go.Base.{
  Text, text_eq, text_eq_iff, text_eq_refl, if◌then◌else◌, Option-cases, Bool-cases, inl, inr,
}
use confii_go.Value.{Value, Fields, end, field}
use confii_go.Value.Maps.{lookup, UniqueKeys}
use confii_go.Value.Laws.{lookup-insert}
use confii_go.Merge.Intersect.{store}

-- What a key holds after a write, if there was one, and what it held before.
abbrev pub written : Option Value → Option Value → Option Value
written none old = old
written (some v) old = some v

lookup-store :
    (j k : Text) (kept : Option Value) (m : Fields)
    → lookup j (store k kept m) ≡ (if text_eq k j then written kept (lookup j m) else lookup j m)
lookup-store j k none m = ground arith
lookup-store j k (some v) m = lookup-insert j k v m

module _ (g : Text → Value → Option (Option Value)) where
  unfoldable pub run : Fields → Fields → Option Fields
  run result end = some result
  run result (field k v rest) = do kept ← g k v; run (store k kept result) rest

  -- The outcome at one key, from the entry that the visited map has for it.
  abbrev pub visited : Text → Option Value → Option Value → Option (Option Value)
  visited j none old = some old
  visited j (some v) old = g j v >>= λ kept. some (written kept old)

  pub run_fails :
      (result rest : Fields) (k : Text) (v : Value)
      → g k v ≡ none
      → run result (field k v rest) ≡ none
  unfolding run
  run_fails result rest k v e = rw e

  pub run_goes_on :
      (result rest : Fields) (k : Text) (v : Value) (kept : Option Value)
      → g k v ≡ some kept
      → run result (field k v rest) ≡ run (store k kept result) rest
  unfolding run
  run_goes_on result rest k v kept e = rw e

  pub lookup-run :
      (j : Text) (result m r : Fields)
      → UniqueKeys m
      → run result m ≡ some r
      → visited j (lookup j m) (lookup j result) ≡ some (lookup j r)
  unfolding lookup
  lookup-run j result end r u h =
      let same : some result ≡ some r = unfold run in h in
      ap (λ o. o >>= λ m. some (lookup j m)) same
  lookup-run j result (field k v rest) r u h = elim (Option-cases (g k v)) [
    | inl e ↦ cc (run_fails result rest k v e)
    | inr (kept, e) ↦
        let later =
          lookup-run j (store k kept result) rest r u.1
            (sym (run_goes_on result rest k v kept e) ∙ h) in
        elim (Bool-cases (text_eq k j)) [
          | inl same ↦
              let p : k ≡ j = (text_eq_iff k j).0 same in
              let missing : lookup j rest ≡ none = rw (← p) u.0 in
              let at_j : g j v ≡ some kept = rw (← p) e in
              rw (same, at_j)
                (ap some (sym (lookup-store j k kept result ∙ rw same)) ∙ (rw missing at later))
          | inr differ ↦ rw differ (
              ap (visited j (lookup j rest)) (sym (lookup-store j k kept result ∙ rw differ))
              ∙ later)
        ]
  ]

  -- A loop fails only where a visit fails.
  pub run_total :
      (result m : Fields)
      → ((k : Text) (v : Value) → lookup k m ≡ some v → (kept : Option Value) × (g k v ≡ some kept))
      → UniqueKeys m
      → (r : Fields) × (run result m ≡ some r)
  unfolding run lookup
  run_total result end h u = (result, refl)
  run_total result (field k v rest) h u =
      let (kept, e) = h k v (rw text_eq_refl) in
      let (r, later) = run_total (store k kept result) rest (λ j w x. h j w (present j w x)) u.1 in
      (r, run_goes_on result rest k v kept e ∙ later)
    where
      present : (j : Text) (w : Value) → lookup j rest ≡ some w → lookup j (field k v rest) ≡ some w
      present j w x = elim (Bool-cases (text_eq k j)) [
        | inl same ↦ let p : k ≡ j = (text_eq_iff k j).0 same in cc (rw p at u.0)
        | inr differ ↦ rw differ x
      ]

  -- A loop fails where a visit fails.
  pub run_panics :
      (result m : Fields) (j : Text) (v : Value)
      → lookup j m ≡ some v
      → g j v ≡ none
      → run result m ≡ none
  unfolding lookup
  run_panics result end j v x e = cc
  run_panics result (field k w rest) j v x e = elim (Option-cases (g k w)) [
    | inl f ↦ run_fails result rest k w f
    | inr (kept, f) ↦
        run_goes_on result rest k w kept f
        ∙ run_panics (store k kept result) rest j v (elsewhere kept f) e
  ]
    where
      elsewhere : (kept : Option Value) → g k w ≡ some kept → lookup j rest ≡ some v
      elsewhere kept f = elim (Bool-cases (text_eq k j)) [
        | inl same ↦
            let p : k ≡ j = (text_eq_iff k j).0 same in
            let q : w ≡ v = some-injective w v (rw same at x) in cc
        | inr differ ↦ rw differ at x
      ]
