-- ===== src/Envhandler.antt =====
-- envhandler/handler.go: the choice of the environment, and of its section of a configuration.
-- The logger is left out: a warning comes back as the list of sections that it names.
pub mod Detection
pub mod Sections
use confii_go.Base.{Bool, true, false, not, ◌&&◌, ◌||◌, Option, none, some, List, [], ◌∷◌}
use confii_go.Base.{Text, codes, text_eq, if◌then◌else◌}
use confii_go.Base.Split.{is_empty}
use confii_go.Value.{Value, Fields, mapping, end, field}
use confii_go.Value.Maps.{lookup, as_map}
use confii_go.Dictutil.{base_map, deep_merge}

-- `ResolveEnv`. The first argument is `os.Getenv`.
unfoldable pub resolve_env : (Text → Text) → Text → Bool → Text → Text → Text
resolve_env getenv explicit_env explicit_flag os_var_name fallback =
    if explicit_flag
    then explicit_env
    else if not (is_empty os_var_name)
    then (let v = getenv os_var_name in if not (is_empty v) then v else fallback)
    else fallback

abbrev pub default_key : Text
default_key = codes "default"

abbrev pub is_map : Value → Bool
is_map v = elim (as_map v) [ none ↦ false | some m ↦ true ]

abbrev pub is_present : Option Value → Bool
is_present none = false
is_present (some v) = true

-- The loop of the second signal.
unfoldable pub has_other_map : Fields → Bool
has_other_map end = false
has_other_map (field k v rest) =
    let later = has_other_map rest in
    if text_eq k default_key then later else if is_map v then true else later

unfoldable pub is_env_mode : Fields → Text → Bool → Bool → Bool
is_env_mode config env has_default default_is_map =
    if not (is_empty env) && is_present (lookup env config)
    then true
    else if has_default && default_is_map
    then has_other_map config
    else false

-- A failed type assertion on a missing key says that it is no map.
abbrev pub is_map_at : Option Value → Bool
is_map_at none = false
is_map_at (some v) = is_map v

unfoldable pub is_environment_aware : Fields → Text → Bool
is_environment_aware config env =
    let default_section = lookup default_key config in
    is_env_mode config env (is_present default_section) (is_map_at default_section)

unfoldable pub available_envs : Fields → List Text
available_envs end = []
available_envs (field k v rest) =
    let later = available_envs rest in
    if text_eq k default_key then later else if is_map v then k ∷ later else later

abbrev pub or_empty : Option Fields → Fields
or_empty none = end
or_empty (some m) = m

-- The configuration, and the warning if there is one.
unfoldable pub resolve : Fields → Text → Fields × Option (List Text)
resolve config env =
    if not (is_environment_aware config env)
    then (config, none)
    else let base = or_empty (base_map (lookup default_key config)) in
      elim (lookup env config) [
        | none ↦ if not (is_empty env) then (base, some (available_envs config)) else (base, none)
        | some section ↦ elim (as_map section) [
          | none ↦ (base, none)
          | some env_map ↦ (deep_merge base env_map, none)
        ]
      ]
