-- ===== src/Tests/Diffs.antt =====
-- Differences of two configurations.
use confii_go.Base.{[], ◌∷◌, List, Text, codes}
use confii_go.Value.{Value, null, text}
use confii_go.Diff.{Diffs, none_left, config_diff, modified, added}
use confii_go.Tests.Data.{host}

-- A JSON text for every value: that of a string, and none for the rest.
marshal : Value → Text
marshal (text s) = s
marshal v = []

abbrev some_diffs : Diffs
some_diffs =
    config_diff (codes "db") modified host null (codes "db")
      (config_diff (codes "password") added null host (codes "db.password") none_left none_left)
      none_left

abbrev sensitive : List Text
sensitive = codes "db.password" ∷ []

abbrev stars : Value
stars = text (codes "***")
