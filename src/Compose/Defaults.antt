-- ===== src/Compose/Defaults.antt =====
-- compose/composer.go: the file's own values and its defaults.
use confii_go.Base.{◌≡◌, refl, ◌∙◌, ap, inl, inr, ℕ, suc, ◌+◌, false, none, some, []}
use confii_go.Base.{Text, codes, text_eq, Bool-cases, Option-cases}
use confii_go.Value.{
  Value, Items, Fields, null, boolean, integer, float, text, sequence, mapping, nil_mapping, nil,
  cons, end, field,
}
use confii_go.Value.Maps.{lookup, insert, delete, copy_fields, as_map, UniqueKeys}
use confii_go.Value.Laws.{lookup-delete, insert-UniqueKeys}
use confii_go.Dictutil.{deep_merge, merge_value}
use confii_go.Dictutil.Lookups.{lookup-deep_merge, lookup-copy, overlaid}
use confii_go.Dictutil.Paths.{merge_value_plain}
use confii_go.Compose.{done, Traversal, Environment, Step, include_key, strategy_key, defaults_key}
use confii_go.Compose.{
  poll, cut, default_fields, default_items, process_defaults, apply_defaults, compose,
  compose_with_dependencies,
}

copy_fields-UniqueKeys : (result m : Fields) → UniqueKeys result → UniqueKeys (copy_fields result m)
unfolding copy_fields
copy_fields-UniqueKeys result end u = u
copy_fields-UniqueKeys result (field k v rest) u =
    copy_fields-UniqueKeys (insert k v result) rest (insert-UniqueKeys k v result u)

default_fields-UniqueKeys :
    (result m : Fields) → UniqueKeys result → UniqueKeys (default_fields result m)
unfolding default_fields
default_fields-UniqueKeys result end u = u
default_fields-UniqueKeys result (field k v rest) u =
    elim (Bool-cases (text_eq k (codes "optional"))) [
      | inl e ↦ rw e (default_fields-UniqueKeys result rest u)
      | inr e ↦
          rw e (default_fields-UniqueKeys (insert k v result) rest (insert-UniqueKeys k v result u))
    ]

module _ (c : Environment) where
  default_items-UniqueKeys :
      (result : Fields) (items : Items)
      → UniqueKeys result
      → UniqueKeys (default_items c result items)
  unfolding default_items
  default_items-UniqueKeys result nil u = u
  default_items-UniqueKeys result (cons null rest) u = default_items-UniqueKeys result rest u
  default_items-UniqueKeys result (cons (boolean b) rest) u = default_items-UniqueKeys result rest u
  default_items-UniqueKeys result (cons (integer i) rest) u = default_items-UniqueKeys result rest u
  default_items-UniqueKeys result (cons (float f) rest) u = default_items-UniqueKeys result rest u
  default_items-UniqueKeys result (cons (sequence xs) rest) u =
      default_items-UniqueKeys result rest u
  default_items-UniqueKeys result (cons nil_mapping rest) u = default_items-UniqueKeys result rest u
  default_items-UniqueKeys result (cons (mapping m) rest) u =
      default_items-UniqueKeys (default_fields result m) rest (default_fields-UniqueKeys result m u)
  default_items-UniqueKeys result (cons (text s) rest) u = elim (Option-cases (cut s)) [
    | inl e ↦ rw (e, default_items) (default_items-UniqueKeys result rest u)
    | inr ((key, val), e) ↦
        rw (e, default_items)
          (default_items-UniqueKeys (insert (c.trim_space key) (text (c.trim_space val)) result)
            rest (insert-UniqueKeys (c.trim_space key) (text (c.trim_space val)) result u))
  ]

  process_defaults-UniqueKeys : (v : Value) → UniqueKeys (process_defaults c v)
  unfolding process_defaults
  process_defaults-UniqueKeys (sequence xs) = default_items-UniqueKeys end xs tt
  process_defaults-UniqueKeys (text s) = default_items-UniqueKeys end (cons (text s) nil) tt
  process_defaults-UniqueKeys _ = tt

  -- A value that is no map is the same after the defaults.
  lookup-apply_defaults :
      (config : Fields) (k : Text) (v : Value)
      → ((m n : Fields) → c.merge m n ≡ deep_merge m n)
      → UniqueKeys config
      → lookup k config ≡ some v
      → as_map v ≡ none
      → text_eq defaults_key k ≡ false
      → lookup k (apply_defaults c config) ≡ some v
  unfolding apply_defaults
  lookup-apply_defaults config k v deep u h leaf other =
      let copied = lookup-copy k config u in
      elim (Option-cases (lookup defaults_key (copy_fields end config))) [
        | inl e ↦ rw (e, apply_defaults) (copied ∙ h)
        | inr (d, e) ↦
            rw (e, apply_defaults)
              (lookup-delete k defaults_key _
                ∙ rw other (
                    ap (lookup k) (deep (process_defaults c d) (copy_fields end config))
                    ∙ lookup-deep_merge k (process_defaults c d) (copy_fields end config)
                        (process_defaults-UniqueKeys d) (copy_fields-UniqueKeys end config tt)
                    ∙ ap (overlaid merge_value (lookup k (process_defaults c d))) (copied ∙ h)
                    ∙ ap some (merge_value_plain (lookup k (process_defaults c d)) v leaf)))
      ]

  poll_live :
      (next : Step) (t : Traversal)
      → c.canceled t.polls ≡ false
      → poll c next t ≡ next (record t { polls = t.polls + 1 })
  unfolding poll
  poll_live next t live = rw (live, poll) refl

  compose_plain :
      (levels : ℕ) (config : Fields) (source : Text) (t : Traversal)
      → c.canceled t.polls ≡ false
      → lookup include_key (apply_defaults c config) ≡ none
      → (compose c (suc levels) config source t).0
        ≡ done (delete strategy_key (apply_defaults c config))
  unfolding compose
  compose_plain levels config source t live plain =
      ap (λ r. r.0) (poll_live _ t live) ∙ rw plain refl

  -- With the recursive merger, a file without repeated keys and without includes, also after its
  -- defaults, and a context that is not canceled, the composition succeeds, and a value of the file
  -- that is no map is kept under its key, if that is no directive, whatever the defaults say.
  pub compose_keeps_local :
      (config : Fields) (source k : Text) (v : Value)
      → ((m n : Fields) → c.merge m n ≡ deep_merge m n)
      → c.canceled 0 ≡ false
      → UniqueKeys config
      → lookup include_key (apply_defaults c config) ≡ none
      → lookup k config ≡ some v
      → as_map v ≡ none
      → text_eq defaults_key k ≡ false
      → text_eq strategy_key k ≡ false
      → (r : Fields) × ((compose_with_dependencies c config source).0 ≡ done r)
        × (lookup k r ≡ some v)
  unfolding compose_with_dependencies
  compose_keeps_local config source k v deep live u plain h leaf a b = (
    delete strategy_key (apply_defaults c config),
    compose_plain 9 config source (record { visited = []; dependencies = []; polls = 0 }) live
        plain,
    lookup-delete k strategy_key _ ∙ rw b (lookup-apply_defaults config k v deep u h leaf a),
  )
