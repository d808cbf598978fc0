-- ===== src/Merge/Resolve.antt =====
-- The strategies, the merger, and `resolveStrategy`: an entry for the path itself, or else for its
-- nearest ancestor that has one, or else the default.
use confii_go.Base.{Bool, ◌&&◌, Option, none, some, List, [], ◌∷◌, ◌++◌}
use confii_go.Base.{Text, text_eq, has_prefix, ltb, length, if◌then◌else◌}
use confii_go.Base.Split.{is_empty}
use confii_go.Configmap.{dot}

pub data Strategy : Type 0 where
  replace shallow_merge deep_merge append prepend intersection union : Strategy

-- AdvancedMerger. A map of strategies is the list of its entries, in the order of one iteration.
pub record Merger : Type 0 where
  pub default_strategy : Strategy
  pub strategy_map : List (Text × Strategy)

unfoldable pub lookup_strategy : Text → List (Text × Strategy) → Option Strategy
lookup_strategy path [] = none
lookup_strategy path ((p, s) ∷ rest) = if text_eq p path then some s else lookup_strategy path rest

-- `strings.HasPrefix(path, p+".")`
abbrev pub is_below : Text → Text → Bool
is_below path p = has_prefix path (p ++ (dot ∷ []))

-- The loop over the map, with `best` and `bestStrategy`.
unfoldable pub nearest : Text → Text → Strategy → List (Text × Strategy) → Text × Strategy
nearest path best best_strategy [] = (best, best_strategy)
nearest path best best_strategy ((p, s) ∷ rest) =
    let closer = is_below path p && ltb (length best) (length p) in
    nearest path (if closer then p else best) (if closer then s else best_strategy) rest

unfoldable pub resolve_strategy : Merger → Text → Strategy
resolve_strategy m path = elim (lookup_strategy path m.strategy_map) [
  | some s ↦ s
  | none ↦
      let (best, best_strategy) = nearest path [] m.default_strategy m.strategy_map in
      if is_empty best then m.default_strategy else best_strategy
]
