-- ===== src/Tests/Retained.antt =====
-- A store of at most one version.
use confii_go.Base.{refl, ℕ, Option, none, some, [], ◌∷◌, Text, codes, arith}
use confii_go.Value.{Fields, end}
use confii_go.Versions.{Version, VersionManager, save_version}
use confii_go.Versions.Retention.{has_id}
use confii_go.Versions.Bounded.{IsKept, save_version-IsKept}

abbrev write_json : Option Fields → Option Text
write_json m = some (codes "{}")

abbrev read_json : Text → Option (Option Fields)
read_json s = some (some end)

abbrev keep_nothing : Text → Version → Option Text
keep_nothing path v = none

abbrev version_at : Text → ℕ → Version
version_at id time = record {
  version_id = id;
  config = some end;
  timestamp = time;
  metadata = none;
  version_paths = [];
}

abbrev one_version : VersionManager
one_version = record {
  storage_path = [];
  max_versions = 1;
  versions = (codes "01", version_at (codes "01") 7) ∷ [];
  last_timestamp = 7;
}

save_version-IsKept_example : IsKept (
    (save_version write_json read_json keep_nothing 9
      (some (codes "02"))
      (some end)
      none
      []
      one_version).1)
unfolding has_id
save_version-IsKept_example =
    save_version-IsKept write_json read_json keep_nothing 9 (some (codes "02")) (some end) none []
      one_version (omega arith, (refl, tt))
