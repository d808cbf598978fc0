-- ===== src/Merge/Steps.antt =====
-- The rounds of `mergeAt` and the cases of `applyStrategy`, as equations.
use confii_go.Base.{◌≡◌, refl, Option, none, some, ◌>>=◌, Text, Option-cases, inl, inr}
use confii_go.Value.{Value, Fields, mapping, nil_mapping, end, field}
use confii_go.Value.Maps.{lookup, insert, as_map}
use confii_go.Configmap.{extend}
use confii_go.Merge.{on_maps, apply_switch, at_level, merge_loop, apply_strategy}
use confii_go.Merge.Resolve.{Merger, Strategy, resolve_strategy}

module _ (m : Merger) (base : Fields) (prefix : Text) (result : Fields) where
  pub merge_loop_done : merge_loop m base prefix result end ≡ some result
  unfolding merge_loop
  merge_loop_done = refl

  pub merge_loop_new :
      (k : Text) (v : Value) (rest : Fields)
      → lookup k base ≡ none
      → merge_loop m base prefix result (field k v rest)
        ≡ merge_loop m base prefix (insert k v result) rest
  unfolding merge_loop
  merge_loop_new k v rest e = rw (e, merge_loop)

  pub merge_loop_shared :
      (k : Text) (v : Value) (rest : Fields) (old : Value)
      → lookup k base ≡ some old
      → merge_loop m base prefix result (field k v rest) ≡ (
          apply_strategy m (resolve_strategy m (extend prefix k)) old (extend prefix k) v >>= λ new.
          merge_loop m base prefix (insert k new result) rest)
  unfolding merge_loop
  merge_loop_shared k v rest old e = rw (e, merge_loop)

module _ (m : Merger) (s : Strategy) (old : Value) (path : Text) where
  pub apply_mapping :
      (o : Fields)
      → apply_strategy m s old path (mapping o)
        ≡ apply_switch (λ b. at_level m b o path (λ r. merge_loop m b path r o)) s old (mapping o)
  unfolding merge_loop
  apply_mapping o = refl

  pub apply_nil_mapping :
      apply_strategy m s old path nil_mapping
      ≡ apply_switch (λ b. at_level m b end path (λ r. some r)) s old nil_mapping
  unfolding merge_loop
  apply_nil_mapping = refl

  pub apply_plain :
      (v : Value)
      → as_map v ≡ none
      → apply_strategy m s old path v ≡ apply_switch (λ b. some b) s old v
  unfolding merge_loop
  apply_plain (mapping o) e = cc
  apply_plain nil_mapping e = cc
  apply_plain v e = refl

-- What the strategies that look at two maps do.
module _ (old v : Value) (f : Fields → Fields → Option Value) where
  pub on_maps_fresh : as_map old ≡ none → on_maps old v f ≡ some v
  unfolding on_maps
  on_maps_fresh e = rw (e, on_maps)

  pub on_maps_both :
      (m n : Fields) → as_map old ≡ some m → as_map v ≡ some n → on_maps old v f ≡ f m n
  unfolding on_maps
  on_maps_both m n e g = rw (e, on_maps) (rw (g, on_maps))

  pub on_maps_plain : as_map v ≡ none → on_maps old v f ≡ some v
  unfolding on_maps
  on_maps_plain g = elim (Option-cases (as_map old)) [
    | inl e ↦ rw (e, on_maps)
    | inr (m, e) ↦ rw (e, on_maps) (rw (g, on_maps))
  ]
