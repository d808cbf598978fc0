-- ===== src/Reload/Safety.antt =====
-- What the publication of a reload or of an Extend requires.
use confii_go.Base.{ℕ, Bool, false, Option, none, ◌≡◌}
use confii_go.Base.{Text}
use confii_go.Runtime.State.{made, check_mutable}
use confii_go.Reload.Prepare.{Config}
use confii_go.Reload.Publish.{publish_source_candidate, copied_views}

-- What a commit that publishes has found.
abbrev Committed : Bool → (Config → Option Text) → ℕ → Config → Config → Config → Type 0
Committed canceled watching base_revision candidate later d =
    (canceled ≡ false)
    × (check_mutable later.live ≡ made tt)
    × (later.live.revision ≡ base_revision)
    × (watching candidate ≡ none)
    × (publish_source_candidate candidate later ≡ d)

-- What a reader finds after a publication: the maps, the sensitive paths, the loaders, their layers
-- and the files of the candidate, no validated model, and the overrides that the configuration had.
abbrev pub IsReplaced : Config → Config → Config → Type 0
IsReplaced candidate later d =
    (d.live.views ≡ copied_views candidate.live.views)
    × (d.live.sensitive_paths ≡ candidate.live.sensitive_paths)
    × (d.loaders ≡ candidate.loaders)
    × (d.caches ≡ candidate.caches)
    × (d.files ≡ candidate.files)
    × (d.live.has_model ≡ false)
    × (d.live.override_stack ≡ later.live.override_stack)
    × (d.live.closed ≡ false)
    × (d.live.frozen ≡ false)
