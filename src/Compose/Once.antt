-- ===== src/Compose/Once.antt =====
-- compose/composer.go: the files of a traversal, and the directives in its result.
use confii_go.Base.{◌≡◌, refl, inl, inr, false, none, List, [], ◌∷◌, ◌++◌, arith}
use confii_go.Base.{Text, text_eq_refl, contains_text, Option-cases}
use confii_go.Value.{Fields, end}
use confii_go.Value.Maps.{lookup, delete, copy_fields}
use confii_go.Value.Laws.{lookup-delete}
use confii_go.Compose.{Traversal, Environment, include_key, strategy_key, defaults_key}
use confii_go.Compose.{max_depth, apply_defaults, compose_with_dependencies}
use confii_go.Compose.Traverse.{Holds, compose_keeps}

abbrev pub NoneTwice : List Text → Type 0
NoneTwice [] = Unit
NoneTwice (k ∷ ks) = (contains_text ks k ≡ false) × NoneTwice ks

abbrev backwards : List Text → List Text
backwards [] = []
backwards (k ∷ ks) = backwards ks ++ (k ∷ [])

-- The files read are the visited ones, in the order of the visits, and none stands there twice.
abbrev IsOnce : Traversal → Type 0
IsOnce t = NoneTwice t.visited × (t.dependencies ≡ backwards t.visited)

abbrev pub LacksDirectives : Fields → Type 0
LacksDirectives m =
    (lookup defaults_key m ≡ none) × (lookup include_key m ≡ none) × (lookup strategy_key m ≡ none)

delete_absent : (j k : Text) (m : Fields) → lookup j m ≡ none → lookup j (delete k m) ≡ none
delete_absent j k m h = let e = lookup-delete j k m in ground arith

delete_self : (k : Text) (m : Fields) → lookup k (delete k m) ≡ none
delete_self k m = let e = lookup-delete k k m in let x = text_eq_refl k in ground arith

apply_defaults_done :
    (c : Environment) (config : Fields) → lookup defaults_key (apply_defaults c config) ≡ none
unfolding apply_defaults
apply_defaults_done c config = elim (Option-cases (lookup defaults_key (copy_fields end config))) [
  | inl e ↦ rw (e, apply_defaults) e
  | inr (v, e) ↦ rw (e, apply_defaults) (delete_self defaults_key _)
]

-- If the merger invents no key that neither of its maps has, then no directive is left at the top
-- of a configuration that is composed without an error.
pub compose-LacksDirectives :
    (c : Environment) (config : Fields) (source : Text)
    → ((k : Text) (m n : Fields)
        → lookup k m ≡ none
        → lookup k n ≡ none
        → lookup k (c.merge m n) ≡ none)
    → Holds LacksDirectives (compose_with_dependencies c config source).0
unfolding compose_with_dependencies
compose-LacksDirectives c config source absent =
    let start : Traversal = record { visited = []; dependencies = []; polls = 0 } in
    (compose_keeps c LacksDirectives (λ t. Unit) (λ t h. h) (λ t k e h. h)
      (λ m n x y. (
        absent defaults_key m n x.0 y.0,
        absent include_key m n x.1 y.1,
        absent strategy_key m n x.2 y.2,
      ))
      (lookup_end defaults_key, lookup_end include_key, lookup_end strategy_key)
      (λ m e. (
        delete_absent defaults_key strategy_key _ (apply_defaults_done c m),
        delete_absent include_key strategy_key _ e,
        delete_self strategy_key _,
      ))
      (λ m n x. (
        delete_absent defaults_key strategy_key _ (
            delete_absent defaults_key include_key _
              (absent defaults_key _ n (apply_defaults_done c m) x.0)),
        delete_absent include_key strategy_key _ (delete_self include_key _),
        delete_self strategy_key _,
      ))
      max_depth config source start tt).0
  where
    lookup_end : (k : Text) → lookup k end ≡ none
    lookup_end k = unfold lookup in refl
