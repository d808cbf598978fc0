-- ===== src/Merge/Nearest.antt =====
-- Which strategy `resolveStrategy` finds.
use mathlib.Core.Option.{some-injective}
use native.Mathlib.Decide.{dec_lt}
use confii_go.Base.{
  ℕ, All, ap₂, ◌≡◌, ◌≢◌, refl, ◌∙◌, ◌≤◌, ◌<◌, Bool, true, false, ◌&&◌, none, some, List, [], ◌∷◌,
  arith,
}
use confii_go.Base.{
  Text, text_eq, text_eq_iff, has_prefix, ltb, length, if◌then◌else◌, Bool-cases, inl, inr,
}
use confii_go.Merge.Resolve.{Merger, Strategy, lookup_strategy, is_below, nearest, resolve_strategy}

nothing_above_root : (p : Text) → is_below [] p ≡ false
unfolding has_prefix
nothing_above_root [] = refl
nothing_above_root (c ∷ p) = refl

nearest_root :
    (best : Text) (s : Strategy) (entries : List (Text × Strategy))
    → nearest [] best s entries ≡ (best, s)
unfolding nearest
nearest_root best s [] = refl
nearest_root best s ((p, t) ∷ entries) = rw (nothing_above_root p) (nearest_root best s entries)

-- The root has the default strategy, unless there is an entry for the empty path.
pub resolve_root :
    (m : Merger)
    → lookup_strategy [] m.strategy_map ≡ none
    → resolve_strategy m [] ≡ m.default_strategy
unfolding resolve_strategy
resolve_root m n = rw (n, resolve_strategy) (rw (nearest_root [] m.default_strategy m.strategy_map))

-- An entry for the path itself decides.
pub resolve_own :
    (m : Merger) (path : Text) (s : Strategy)
    → lookup_strategy path m.strategy_map ≡ some s
    → resolve_strategy m path ≡ s
unfolding resolve_strategy
resolve_own m path s e = rw (e, resolve_strategy)

-- Two ancestors of one path that are equally long are one.
ancestor_unique :
    (path p q : Text)
    → is_below path p ≡ true
    → is_below path q ≡ true
    → length p ≡ length q
    → p ≡ q
unfolding has_prefix
ancestor_unique path [] [] h k e = refl
ancestor_unique path [] (d ∷ q) h k e = absurd (omega arith)
ancestor_unique path (c ∷ p) [] h k e = absurd (omega arith)
ancestor_unique [] (c ∷ p) (d ∷ q) h k e = cc
ancestor_unique (b ∷ path) (c ∷ p) (d ∷ q) h k e =
    let tails = ancestor_unique path p q (ground arith) (ground arith) (omega arith) in
    let heads : c ≡ d = ground arith in ap₂ (λ x y. x ∷ y) heads tails

-- No entry that is an ancestor of the path is longer than `n`.
abbrev pub NoneLonger : Text → ℕ → List (Text × Strategy) → Type 0
NoneLonger path n = All (λ e. is_below path e.0 ≡ true → length e.0 ≤ n)

nearest_stays :
    (path best : Text) (s : Strategy) (entries : List (Text × Strategy))
    → NoneLonger path (length best) entries
    → nearest path best s entries ≡ (best, s)
unfolding nearest
nearest_stays path best s [] h = refl
nearest_stays path best s ((p, t) ∷ entries) h =
    rw (not_closer path best p h.0) (nearest_stays path best s entries h.1)
  where
    not_closer :
        (path best p : Text)
        → (is_below path p ≡ true → length p ≤ length best)
        → (is_below path p && ltb (length best) (length p)) ≡ false
    not_closer path best p k = elim (Bool-cases (is_below path p)) [
      | inl below ↦ let bound = k below in rw below (ground arith)
      | inr other ↦ rw other
    ]

abbrev closer : Text → Text → Text → Bool
closer path best q = is_below path q && ltb (length best) (length q)

nearest_step :
    (path best : Text) (b : Strategy) (q : Text) (t : Strategy) (entries : List (Text × Strategy))
    (c : Bool)
    → closer path best q ≡ c
    → nearest path best b ((q, t) ∷ entries)
      ≡ nearest path (if c then q else best) (if c then t else b) entries
unfolding nearest
nearest_step path best b q t entries c e = rw e

-- A closer entry is an ancestor, and one that is not the longest is shorter.
closer_shorter :
    (path best p q : Text)
    → closer path best q ≡ true
    → text_eq q p ≡ false
    → is_below path p ≡ true
    → (is_below path q ≡ true → length q ≤ length p)
    → length q < length p
closer_shorter path best p q c differ below bound =
    let q_below : is_below path q ≡ true = ground arith in
    let fits = bound q_below in
    elim (dec_lt (length q) (length p)) [
      | yes shorter ↦ shorter
      | no longer ↦
          let same : q ≡ p = ancestor_unique path q p q_below below (omega arith) in
          cc ((text_eq_iff q p).1 same)
    ]

nearest_finds :
    (path best : Text) (b : Strategy) (entries : List (Text × Strategy)) (p : Text) (s : Strategy)
    → length best < length p
    → is_below path p ≡ true
    → lookup_strategy p entries ≡ some s
    → NoneLonger path (length p) entries
    → nearest path best b entries ≡ (p, s)
unfolding lookup_strategy
nearest_finds path best b [] p s shorter below found h = cc
nearest_finds path best b ((q, t) ∷ entries) p s shorter below found h =
    elim (Bool-cases (text_eq q p)) [
      | inl same ↦
          let e : q ≡ p = (text_eq_iff q p).0 same in
          let f : t ≡ s = some-injective t s (rw same at found) in
          let is_closer : closer path best q ≡ true = rw e (rw below (ground arith)) in
          nearest_step path best b q t entries true is_closer
          ∙ nearest_stays path q t entries (rw e h.1)
          ∙ ap₂ (λ x y. (x, y)) e f
      | inr differ ↦
          let later : lookup_strategy p entries ≡ some s = rw differ at found in
          elim (Bool-cases (closer path best q)) [
            | inl c ↦
                nearest_step path best b q t entries true c
                ∙ nearest_finds path q t entries p s
                    (closer_shorter path best p q c differ below h.0) below later h.1
            | inr c ↦
                nearest_step path best b q t entries false c
                ∙ nearest_finds path best b entries p s shorter below later h.1
          ]
    ]

-- A path without an entry of its own has the strategy of an ancestor that has an entry, if no
-- longer ancestor has one, whatever the order of the entries.
pub resolve_nearest :
    (m : Merger) (path p : Text) (s : Strategy)
    → lookup_strategy path m.strategy_map ≡ none
    → p ≢ []
    → is_below path p ≡ true
    → lookup_strategy p m.strategy_map ≡ some s
    → NoneLonger path (length p) m.strategy_map
    → resolve_strategy m path ≡ s
unfolding resolve_strategy
resolve_nearest m path [] s own some_part below found h = absurd (some_part refl)
resolve_nearest m path (c ∷ p) s own some_part below found h =
    rw (own, resolve_strategy)
      (rw (
        nearest_finds path [] m.default_strategy m.strategy_map (c ∷ p) s (omega arith) below found
          h))

-- A path with no entry, and none for an ancestor but the empty path, has the default strategy.
pub resolve_default :
    (m : Merger) (path : Text)
    → lookup_strategy path m.strategy_map ≡ none
    → NoneLonger path 0 m.strategy_map
    → resolve_strategy m path ≡ m.default_strategy
unfolding resolve_strategy
resolve_default m path own h =
    rw (own, resolve_strategy) (rw (nearest_stays path [] m.default_strategy m.strategy_map h))
