-- ===== src/Merge/Levels.antt =====
-- What each key of a merged level holds.
use mathlib.Core.Option
use confii_go.Base.{sym, ◌≡◌, ◌≢◌, refl, ◌∙◌, ap, Option, none, some, ◌>>=◌}
use confii_go.Base.{Text, Option-cases, inl, inr}
use confii_go.Value.{Value, Fields, end, field}
use confii_go.Value.Maps.{lookup, insert, copy_fields, UniqueKeys}
use confii_go.Configmap.{extend}
use confii_go.Merge.{at_level, merge_loop, apply_strategy, merge_at}
use confii_go.Merge.Steps.{merge_loop_new, merge_loop_shared}
use confii_go.Merge.Resolve.{Merger, Strategy, replace, intersection, resolve_strategy}
use confii_go.Merge.Runs.{written, run, visited, lookup-run, run_goes_on, run_fails}

module _ (m : Merger) (base : Fields) (prefix : Text) where
  -- What the loop does with one entry of the overlay.
  pub merge_visit : Text → Value → Option (Option Value)
  merge_visit k v = elim (lookup k base) [
    | none ↦ some (some v)
    | some old ↦
        Option.map some
          (apply_strategy m (resolve_strategy m (extend prefix k)) old (extend prefix k) v)
  ]

  pub visit_new : (k : Text) (v : Value) → lookup k base ≡ none → merge_visit k v ≡ some (some v)
  unfolding merge_visit
  visit_new k v e = rw (e, merge_visit)

  pub visit_shared :
      (k : Text) (v old : Value)
      → lookup k base ≡ some old
      → merge_visit k v
        ≡ Option.map some
            (apply_strategy m (resolve_strategy m (extend prefix k)) old (extend prefix k) v)
  unfolding merge_visit
  visit_shared k v old e = rw (e, merge_visit)

  pub merge_loop-run :
      (result overlay : Fields)
      → merge_loop m base prefix result overlay ≡ run merge_visit result overlay
  merge_loop-run result end = unfold merge_loop run in refl
  merge_loop-run result (field k v rest) =
      round result k v rest (λ w. merge_loop-run (insert k w result) rest)
    where
      round :
          (result : Fields) (k : Text) (v : Value) (rest : Fields)
          → ((w : Value)
              → merge_loop m base prefix (insert k w result) rest
                ≡ run merge_visit (insert k w result) rest)
          → merge_loop m base prefix result (field k v rest)
            ≡ run merge_visit result (field k v rest)
      round result k v rest later = elim (Option-cases (lookup k base)) [
        | inl e ↦
            merge_loop_new m base prefix result k v rest e
            ∙ later v
            ∙ sym (run_goes_on merge_visit result rest k v (some v) (visit_new k v e))
        | inr (old, e) ↦
            let applied =
              apply_strategy m (resolve_strategy m (extend prefix k)) old (extend prefix k) v in
            merge_loop_shared m base prefix result k v rest old e ∙ elim (Option-cases applied) [
              | inl f ↦
                  ap (λ o. o >>= λ new. merge_loop m base prefix (insert k new result) rest) f
                  ∙ sym (
                      run_fails merge_visit result rest k v
                        (visit_shared k v old e ∙ ap (Option.map some) f))
              | inr (w, f) ↦
                  ap (λ o. o >>= λ new. merge_loop m base prefix (insert k new result) rest) f
                  ∙ later w
                  ∙ sym (
                      run_goes_on merge_visit result rest k v (some w)
                        (visit_shared k v old e ∙ ap (Option.map some) f))
            ]
      ]

-- What a level begins with: nothing under `Replace`, or else the base.
abbrev pub initial : Strategy → Fields → Fields
initial replace base = end
initial _ base = copy_fields end base

pub at_level-initial :
    (m : Merger) (base overlay : Fields) (prefix : Text) (loop : Fields → Option Fields)
    → resolve_strategy m prefix ≢ intersection
    → at_level m base overlay prefix loop ≡ loop (initial (resolve_strategy m prefix) base)
unfolding at_level
at_level-initial m base overlay prefix loop h = go (resolve_strategy m prefix) refl
  where
    go :
        (s : Strategy)
        → resolve_strategy m prefix ≡ s
        → at_level m base overlay prefix loop ≡ loop (initial (resolve_strategy m prefix) base)
    go intersection e = absurd (h e)
    go s e = rw (e, at_level)

-- The value that a key is to have after the merge of a level, or a panic: that of the level's start
-- if the overlay lacks the key, the overlay's if the base lacks it, and else what the strategy of
-- the key's path makes of the two.
abbrev pub expected :
    Merger → Fields → Text → Text → Option Value → Option Value → Option (Option Value)
expected m base prefix j none old = some (lookup j (initial (resolve_strategy m prefix) base))
expected m base prefix j (some v) none = some (some v)
expected m base prefix j (some v) (some old) =
    Option.map some
      (apply_strategy m (resolve_strategy m (extend prefix j)) old (extend prefix j) v)

visited-expected :
    (m : Merger) (base : Fields) (prefix j : Text) (o : Option Value)
    → visited (merge_visit m base prefix) j o (lookup j (initial (resolve_strategy m prefix) base))
      ≡ expected m base prefix j o (lookup j base)
visited-expected m base prefix j none = refl
visited-expected m base prefix j (some v) = elim (Option-cases (lookup j base)) [
  | inl e ↦ rw (visit_new m base prefix j v e) (rw e)
  | inr (old, e) ↦ rw (visit_shared m base prefix j v old e) (rw e (kept _ _))
]
  where
    kept :
        (a : Option Value) (old : Option Value)
        → (Option.map some a >>= λ w. some (written w old)) ≡ Option.map some a
    kept none old = refl
    kept (some w) old = refl

-- If no key of the overlay is repeated, `Intersection` does not govern the level, and the merge
-- does not panic, then every key of the result holds its expected value.
pub lookup-merge_at :
    (m : Merger) (base overlay r : Fields) (prefix j : Text)
    → UniqueKeys overlay
    → resolve_strategy m prefix ≢ intersection
    → merge_at m base overlay prefix ≡ some r
    → expected m base prefix j (lookup j overlay) (lookup j base) ≡ some (lookup j r)
lookup-merge_at m base overlay r prefix j u ne h =
    let start = initial (resolve_strategy m prefix) base in
    let loop : merge_loop m base prefix start overlay ≡ some r =
      sym (at_level-initial m base overlay prefix (λ x. merge_loop m base prefix x overlay) ne)
      ∙ unfold_merge_at h in
    as_expected (
      lookup-run (merge_visit m base prefix) j start overlay r u
        (sym (merge_loop-run m base prefix start overlay) ∙ loop))
  where
    unfold_merge_at :
        merge_at m base overlay prefix ≡ some r
        → at_level m base overlay prefix (λ x. merge_loop m base prefix x overlay) ≡ some r
    unfold_merge_at y = unfold merge_at in y

    as_expected :
        visited
            (merge_visit m base prefix)
            j
            (lookup j overlay)
            (lookup j (initial (resolve_strategy m prefix) base))
          ≡ some (lookup j r)
        → expected m base prefix j (lookup j overlay) (lookup j base) ≡ some (lookup j r)
    as_expected y = sym (visited-expected m base prefix j (lookup j overlay)) ∙ y
