-- ===== src/Tests/Tracking.antt =====
-- Where values come from.
use confii_go.Base.{◌≡◌, ◌⊎◌, refl, ℕ, true, false, [], ◌∷◌, Text, codes, contains_text}
use confii_go.Base.Int.{ℤ, pos}
use confii_go.Base.Dict.{find}
use confii_go.Value.{Value, null, text}
use confii_go.Configmap.{collect}
use confii_go.Sourcetrack.{SourceInfo, Tracker, track_config}
use confii_go.Sourcetrack.Origins.{ComesFrom, track_config_origins}
use confii_go.Sourcetrack.History.{IsTracked, track_config-IsTracked}
use confii_go.Tests.Data.{base}

abbrev file : Text
file = codes "app.yaml"

abbrev yaml : Text
yaml = codes "yaml"

abbrev no_line : Text → ℤ
no_line path = pos 0

abbrev midnight : Text → ℕ
midnight path = 0

abbrev recorded : SourceInfo
recorded = record {
  key = codes "db.port";
  value = null;
  source_file = codes "old.env";
  loader_type = codes "env";
  line_number = pos 0;
  environment = [];
  override_count = 0;
  history = [];
  timestamp = 0;
}

abbrev tracker : Tracker
tracker = record { sources = (codes "db.port", recorded) ∷ []; debug_mode = true }

track_config_origins_example :
    ((contains_text (collect [] base) (codes "db.port") ≡ true)
      × ComesFrom file yaml
          (track_config file yaml [] no_line midnight base [] tracker)
          (codes "db.port"))
    ⊎ ((contains_text (collect [] base) (codes "db.port") ≡ false)
        × (find
              (codes "db.port")
              (track_config file yaml [] no_line midnight base [] tracker).sources
            ≡ find (codes "db.port") tracker.sources))
track_config_origins_example =
    track_config_origins file yaml [] no_line midnight base tracker (codes "db.port")

track_config-IsTracked_example :
    IsTracked (track_config file yaml [] no_line midnight base [] tracker)
track_config-IsTracked_example =
    track_config-IsTracked file yaml [] no_line midnight base [] tracker ((refl, refl), tt)

abbrev stars : Value
stars = text (codes "***")

abbrev hidden : SourceInfo
hidden = record recorded { value = stars }
