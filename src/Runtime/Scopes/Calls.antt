-- ===== src/Runtime/Scopes/Calls.antt =====
-- config_override.go: what a call of Override that returns has done.
use confii_go.Base.{◌≡◌, ◌≢◌, refl, ◌∙◌, ap, Bool, true, false, Option, none, some, Text, ◌==◌}
use confii_go.Base.Sort.{sort_texts}
use confii_go.Value.Maps.{keys}
use confii_go.Runtime.State.{
  Live, Settings, Attempt, made, refused, check_open, Round, committed, again, stopped,
  canceled_error, rejected,
}
use confii_go.Runtime.Candidates.{
  Candidate, snapshot_candidate, mutation_conflict, commit_candidate,
}
use confii_go.Runtime.Overrides.{
  OverrideRequest, set_overrides, push_override, commit_override, override_round,
}
use confii_go.Runtime.Atomic.{bind-made, made-injective, commit_ends}

-- What a committed call of Override has done.
override_ends :
    (r : OverrideRequest) (d e : Live) (checked : Attempt (Unit {0})) (tried : Attempt Candidate)
    → (elim checked [
      | refused x ↦ stopped x
      | made _ ↦ elim tried [
        | made candidate ↦ commit_override r false candidate d
        | refused failure ↦ elim (mutation_conflict false d.revision d) [
          | refused x ↦ stopped x
          | made true ↦ again
          | made false ↦ stopped failure
        ]
      ]
    ])
      ≡ committed e
    → (candidate : Candidate) × (tried ≡ made candidate)
      × (commit_override r false candidate d ≡ committed e)
override_ends r d e (refused x) tried h = cc
override_ends r d e (made u) (made candidate) h = (candidate, refl, h)
override_ends r d e (made u) (refused failure) h =
    absurd (no_commit (mutation_conflict false d.revision d) h)
  where
    no_commit :
        (a : Attempt Bool)
        → ◌≢◌ {A = Round Live}
            (elim a [ refused x ↦ stopped x | made true ↦ again | made false ↦ stopped failure ])
            (committed e)
    no_commit (refused x) z = cc
    no_commit (made true) z = cc
    no_commit (made false) z = cc

validated :
    (o : Option Text) (x y : Candidate)
    → (elim o [ none ↦ made x | some failure ↦ refused (rejected failure) ]) ≡ made y
    → x ≡ y
validated none x y h = made-injective x y h
validated (some failure) x y h = cc

pub override_round-committed :
    (st : Settings) (r : OverrideRequest) (d e : Live)
    → override_round st r false d d ≡ committed e
    → (candidate : Candidate) × (set_overrides st r
          (sort_texts (keys r.raw_overrides))
          (snapshot_candidate d)
        ≡ made candidate)
      × (push_override r candidate d ≡ e)
unfolding override_round commit_override commit_candidate
override_round-committed st r d e h =
    let (candidate, tried, done) = override_ends r d e (check_open d) _ h in
    let (first, a, b) =
      bind-made (set_overrides st r (sort_texts (keys r.raw_overrides)) (snapshot_candidate d)) _
        candidate tried in
    let (_, _, _, published) =
      commit_ends false (check_open d) (d.revision == candidate.base_revision)
        (push_override r candidate d) e canceled_error done in
    (
      candidate,
      a ∙ ap made (validated (st.validate first.new_views.env_config) first candidate b),
      published,
    )
