-- ===== src/Tests/Composing.antt =====
-- Composition of files.
use confii_go.Base.{◌≡◌, refl, true, false, some, [], ◌∷◌, Text, codes, text_eq, contains_text}
use confii_go.Value.{Value, Fields, text, sequence, nil, cons, end, field}
use confii_go.Value.Maps.{lookup, insert, delete, copy_fields}
use confii_go.Dictutil.{deep_merge, merge_into, merge_value}
use confii_go.Compose.{
  Paths, Environment, compose_with_dependencies, apply_defaults, defaults_key, include_key,
}
use confii_go.Compose.{
  poll, compose, process_includes, include_paths, include_dir, load_file, visit, text_items,
  process_defaults, default_items, default_fields, cut,
}
use confii_go.Tests.Data.{host}

-- Names of files are their own canonical form; every file includes itself and `shared.yaml`.
abbrev pub plain_paths : Paths
plain_paths = record {
  is_abs = λ p. true;
  dir = λ p. [];
  join = λ d p. p;
  clean = λ p. p;
  absolute_path = λ p. some p;
}

abbrev pub shared : Text
shared = codes "shared.yaml"

abbrev pub app : Text
app = codes "app.yaml"

abbrev pub includes : Value
includes = sequence (cons (text shared) (cons (text app) nil))

abbrev pub file : Fields
file =
    field (codes "host") host
      (field include_key includes (field defaults_key (text (codes "host:other")) end))

abbrev pub world : Environment
world = record {
  paths = plain_paths;
  base_path = [];
  merge = deep_merge;
  trim_space = λ s. s;
  read_file = λ p. some [];
  decode = λ p s. some file;
  canceled = λ n. false;
}

-- Both files are read once, although each includes both.
two_files : (compose_with_dependencies world file app).1 ≡ shared ∷ app ∷ []
unfolding compose_with_dependencies compose poll lookup apply_defaults copy_fields insert text_eq
    delete deep_merge merge_into merge_value process_defaults default_items default_fields cut
    process_includes include_paths include_dir text_items contains_text load_file visit
two_files = refl

abbrev local_file : Fields
local_file = field (codes "host") host (field defaults_key (text (codes "host:other")) end)
