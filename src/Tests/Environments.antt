-- ===== src/Tests/Environments.antt =====
-- Configurations with a section for each environment.
use confii_go.Base.{◌≡◌, ◌≢◌, refl, some, [], Text, codes, text_eq}
use confii_go.Base.Int.{pos}
use confii_go.Base.Split.{is_empty, split}
use confii_go.Value.{Fields, integer, mapping, end, field}
use confii_go.Value.Maps.{lookup, IsProperMap}
use confii_go.Configmap.{get, parse, walk}
use confii_go.Envhandler.{default_key, is_env_mode, is_environment_aware, resolve}
use confii_go.Envhandler.Sections.{get-resolve_section, resolve_isolated}
use confii_go.Tests.Data.{base, database}

abbrev production : Text
production = codes "production"

abbrev own : Fields
own = field (codes "debug") (integer (pos 1)) end

abbrev sections : Fields
sections = field default_key (mapping base) (field production (mapping own) end)

abbrev more_sections : Fields
more_sections =
    field (codes "staging") (mapping database)
      (field default_key (mapping base) (field production (mapping own) end))

sections-IsProperMap : IsProperMap sections
unfolding lookup text_eq
sections-IsProperMap =
    (refl, (refl, (refl, tt, (refl, tt, tt)), (refl, tt, tt)), (refl, (refl, tt, tt), tt))

production-ne-empty : production ≢ []
production-ne-empty e = cc

get-resolve_section_example :
    get (some (resolve sections production).0) (codes "debug") ≡ some (integer (pos 1))
unfolding lookup text_eq get walk parse split
get-resolve_section_example =
    get-resolve_section sections own production (codes "debug") (mapping own) (integer (pos 1))
      sections-IsProperMap production-ne-empty refl refl refl refl

resolve_isolated_example : (resolve sections production).0 ≡ (resolve more_sections production).0
unfolding lookup text_eq is_environment_aware is_env_mode is_empty
resolve_isolated_example = resolve_isolated sections more_sections production refl refl refl refl
