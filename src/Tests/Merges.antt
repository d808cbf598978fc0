-- ===== src/Tests/Merges.antt =====
-- Merges by strategy.
use confii_go.Base.{
  ◌≢◌, ◌≡◌, refl, none, some, List, [], ◌∷◌, Text, codes, inl, inr, arith, text_eq, has_prefix,
}
use confii_go.Value.{Fields, null, text, sequence, mapping, nil, cons, end, field}
use confii_go.Value.Maps.{lookup, insert, keys, append_items, copy_fields}
use confii_go.Value.Equality.{interface_eq}
use confii_go.Dictutil
use confii_go.Merge.{merge, merge_at, at_level, merge_loop, apply_switch, append_lists}
use confii_go.Merge.Resolve.{
  Merger, Strategy, replace, deep_merge, intersection, union, append, lookup_strategy, nearest,
  resolve_strategy,
}
use confii_go.Merge.Intersect.{
  intersect, intersect_maps, intersect_loop, shared_value, common_values,
}
use confii_go.Merge.Nearest.{resolve_nearest}
use confii_go.Merge.Shared.{merge_panics}
use confii_go.Merge.Deep.{merge-deep_merge}
use confii_go.Merge.Levels.{lookup-merge_at, expected}
use confii_go.Merge.Entries.{replace_hides_nested_entries, intersection_entry_leaves_nil}
use confii_go.Tests.Data.{
  host, base, overlay, moved, base-IsProperMap, overlay-IsProperMap, listing, one_item,
}

abbrev merger : Strategy → List (Text × Strategy) → Merger
merger s entries = record { default_strategy = s; strategy_map = entries }

merge-deep_merge_example :
    merge (merger union []) base overlay ≡ some (Dictutil.deep_merge base overlay)
merge-deep_merge_example =
    merge-deep_merge (merger union []) base overlay (inr refl) refl base-IsProperMap
      overlay-IsProperMap

abbrev listed : List (Text × Strategy)
listed = (codes "db", replace) ∷ (codes "db.pool", append) ∷ []

resolve_nearest_example :
    resolve_strategy (merger deep_merge listed) (codes "db.pool.size") ≡ append
unfolding lookup_strategy has_prefix text_eq
resolve_nearest_example =
    resolve_nearest (merger deep_merge listed) (codes "db.pool.size") (codes "db.pool") append refl
      (λ e. cc) refl refl ((λ e. omega arith), ((λ e. omega arith), tt))

merge_panics_example : merge (merger intersection []) listing listing ≡ none
unfolding lookup text_eq lookup_strategy
merge_panics_example =
    merge_panics (merger intersection []) listing listing (codes "tags") one_item one_item refl refl
      refl refl

abbrev name_only : Fields
name_only = field (codes "name") (text (codes "app")) end

-- Of `base` and `base` with another port the intersection keeps what they share.
shared_part :
    intersect_maps base moved
    ≡ some (field (codes "db") (mapping (field (codes "host") host end)) name_only)
unfolding intersect_maps intersect_loop shared_value interface_eq lookup insert text_eq
shared_part = refl

abbrev nested_entry : Merger
nested_entry = merger replace ((codes "db.port", deep_merge) ∷ [])

replace_hides_nested_entries_example :
    (r : Fields) × (merge nested_entry base overlay ≡ some r)
    × ((j : Text) → lookup j r ≡ lookup j overlay)
unfolding keys lookup text_eq
replace_hides_nested_entries_example =
    replace_hides_nested_entries nested_entry base overlay refl (refl, tt) refl (refl, (refl, tt))

abbrev other_name : Fields
other_name = field (codes "name") (text (codes "job")) end

abbrev name_entry : Merger
name_entry = merger deep_merge ((codes "name", intersection) ∷ [])

nil_left : merge name_entry name_only other_name ≡ some (field (codes "name") null end)
unfolding merge merge_at at_level merge_loop apply_switch resolve_strategy lookup_strategy nearest
    has_prefix intersect common_values shared_value interface_eq copy_fields lookup insert text_eq
nil_left = refl

intersection_entry_leaves_nil_example :
    lookup (codes "name") (field (codes "name") null end) ≡ some null
unfolding lookup_strategy lookup text_eq interface_eq
intersection_entry_leaves_nil_example =
    intersection_entry_leaves_nil name_entry name_only other_name (field (codes "name") null end)
      (codes "name") (text (codes "app")) (text (codes "job")) (inl refl) refl refl (refl, tt) refl
      refl refl refl nil_left

abbrev tags_entry : Merger
tags_entry = merger deep_merge ((codes "tags", append) ∷ [])

abbrev two_tags : Fields
two_tags = field (codes "tags") (sequence (cons null (cons null nil))) end

tags_appended : merge_at tags_entry listing listing [] ≡ some two_tags
unfolding merge_at at_level merge_loop apply_switch append_lists resolve_strategy lookup_strategy
    nearest has_prefix append_items copy_fields lookup insert text_eq
tags_appended = refl

deep_merge-ne-intersection : deep_merge ≢ intersection
deep_merge-ne-intersection e = cc

lookup-merge_at_example :
    expected tags_entry listing []
      (codes "tags")
      (lookup (codes "tags") listing)
      (lookup (codes "tags") listing)
    ≡ some (lookup (codes "tags") two_tags)
unfolding resolve_strategy lookup_strategy nearest has_prefix lookup text_eq
lookup-merge_at_example =
    lookup-merge_at tags_entry listing listing two_tags [] (codes "tags") (refl, tt)
      deep_merge-ne-intersection tags_appended
