-- ===== src/Envhandler/Sections.antt =====
-- What a resolved configuration holds.
use confii_go.Base.{ap₂, sym, ◌≡◌, ◌≢◌, refl, ◌∙◌, true, Option, none, some, List, [], arith}
use confii_go.Base.{Text, Option-cases, inl, inr}
use confii_go.Value.{Value, Fields}
use confii_go.Value.Maps.{lookup, as_map, UniqueKeys, IsProperMap}
use confii_go.Value.Laws.{lookup-IsProper, as_map-IsProper, IsProperMap-UniqueKeys}
use confii_go.Configmap.{get, parse}
use confii_go.Dictutil.{base_map, deep_merge}
use confii_go.Dictutil.Paths.{Silent, get-deep_merge_leaf, get-deep_merge-Silent}
use confii_go.Envhandler.{default_key, or_empty, is_environment_aware, resolve}
use confii_go.Envhandler.Detection.{aware_iff}

-- The default section, or an empty one.
abbrev pub default_section : Fields → Fields
default_section config = or_empty (base_map (lookup default_key config))

default_section-IsProper :
    (config : Fields) → IsProperMap config → IsProperMap (default_section config)
default_section-IsProper config h = go (lookup default_key config) refl
  where
    of_map :
        (o : Option Fields) → ((m : Fields) → o ≡ some m → IsProperMap m) → IsProperMap (or_empty o)
    of_map none k = tt
    of_map (some m) k = k m refl

    go : (o : Option Value) → lookup default_key config ≡ o → IsProperMap (or_empty (base_map o))
    go none e = tt
    go (some v) e =
        of_map (as_map v) (λ m x. as_map-IsProper v m x (lookup-IsProper default_key config v h e))

-- With a section for a named environment, that section is merged onto the default one.
resolve_section :
    (config e : Fields) (env : Text) (v : Value)
    → UniqueKeys config
    → env ≢ []
    → lookup env config ≡ some v
    → as_map v ≡ some e
    → (resolve config env).0 ≡ deep_merge (default_section config) e
unfolding resolve
resolve_section config e env v u named x y =
    let aware = (aware_iff config env u).1 (inl (named, (λ z. cc))) in
    rw aware (rw (x, resolve) (rw (y, resolve)))

-- In a configuration without repeated keys, with a map as the section of the named environment, a
-- value of that section that is no map is the value of the resolved configuration, whatever the
-- default section and the other sections hold.
pub get-resolve_section :
    (config e : Fields) (env path : Text) (section v : Value)
    → IsProperMap config
    → env ≢ []
    → lookup env config ≡ some section
    → as_map section ≡ some e
    → get (some e) path ≡ some v
    → as_map v ≡ none
    → get (some (resolve config env).0) path ≡ some v
get-resolve_section config e env path section v h named x y reads leaf =
    rw (resolve_section config e env section (IsProperMap-UniqueKeys config h) named x y) (
      get-deep_merge_leaf (default_section config) e path v (default_section-IsProper config h)
        (as_map-IsProper section e y (lookup-IsProper env config section h x)) reads leaf)

-- In a configuration without repeated keys, with a map as the section of the named environment, a
-- valid path of which that section says nothing reads as in the default section.
pub get-resolve_default :
    (config e : Fields) (env path : Text) (parts : List Text) (section : Value)
    → IsProperMap config
    → env ≢ []
    → lookup env config ≡ some section
    → as_map section ≡ some e
    → parse path ≡ (parts, true)
    → Silent e parts
    → get (some (resolve config env).0) path ≡ get (some (default_section config)) path
get-resolve_default config e env path parts section h named x y parsed silent =
    rw (resolve_section config e env section (IsProperMap-UniqueKeys config h) named x y) (
      get-deep_merge-Silent (default_section config) e path parts
        (default_section-IsProper config h)
        (as_map-IsProper section e y (lookup-IsProper env config section h x)) parsed silent)

-- What a resolution makes of the default section and the environment's.
resolved : Option Value → Option Value → Fields
resolved d none = or_empty (base_map d)
resolved d (some section) = elim (as_map section) [
  | none ↦ or_empty (base_map d)
  | some e ↦ deep_merge (or_empty (base_map d)) e
]

resolve-resolved :
    (config : Fields) (env : Text)
    → is_environment_aware config env ≡ true
    → (resolve config env).0 ≡ resolved (lookup default_key config) (lookup env config)
unfolding resolve resolved
resolve-resolved config env aware = elim (Option-cases (lookup env config)) [
  | inl e ↦ rw aware (rw (e, resolve, resolved) (ground arith))
  | inr (section, e) ↦ elim (Option-cases (as_map section)) [
    | inl f ↦ rw aware (rw (e, resolve, resolved) (rw (f, resolve)))
    | inr (m, f) ↦ rw aware (rw (e, resolve, resolved) (rw (f, resolve)))
  ]
]

-- In two configurations that are read as sections, and agree on the default section and on that of
-- the environment, the other sections make no difference.
pub resolve_isolated :
    (config other : Fields) (env : Text)
    → is_environment_aware config env ≡ true
    → is_environment_aware other env ≡ true
    → lookup default_key config ≡ lookup default_key other
    → lookup env config ≡ lookup env other
    → (resolve config env).0 ≡ (resolve other env).0
resolve_isolated config other env a b d e =
    resolve-resolved config env a ∙ ap₂ resolved d e ∙ sym (resolve-resolved other env b)
