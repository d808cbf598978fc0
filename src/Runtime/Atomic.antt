-- ===== src/Runtime/Atomic.antt =====
-- config_mutation.go: rounds of Set beside other operations.
use confii_go.Base.{
  Option, ◌≡◌, ◌≢◌, refl, sym, ◌∙◌, ap, ◌⊎◌, inl, inr, ℕ, zero, suc, ◌+◌, ◌%◌, ◌^◌, ◌<◌, ◌≤◌, Bool,
  true, false, not, ◌||◌, if-true, if-false, none, some, arith, ◌==◌, if◌then◌else◌, Bool-cases,
  Option-cases,
}
use confii_go.Base.{Text}
use confii_go.Versions.{Version}
use confii_go.Runtime.State.{
  Live, Settings, RuntimeError, canceled_error, rejected, Attempt, made, refused, ◌>>=◌,
  bump_revision, check_mutable, Round, committed, again, stopped, freeze, close,
}
use confii_go.Runtime.Candidates.{
  Candidate, snapshot_candidate, publish_candidate, mutation_conflict, commit_candidate,
}
use confii_go.Runtime.Sets.{SetRequest, begin_set, commit_set, set_round}
use confii_go.Runtime.Overrides.{OverrideRequest, push_override}
use confii_go.Runtime.Restores.{restore_override, on_stack}
use confii_go.Value.{Fields}
use confii_go.Runtime.Refresh.{publish_refresh}
use confii_go.Runtime.Rollback.{publish_version}

-- What other goroutines may do between two sections: any publication of new data (Set, Reload and
-- Extend publish a candidate), a refresh of secrets, and the operations of the lifecycle.
pub data Step : Live → Live → Type 0 where
  freezes : (c : Live) → Step c (freeze c)
  closes : (c : Live) → Step c (close c)
  publishes : (candidate : Candidate) (c : Live) → Step c (publish_candidate candidate c)
  overrides :
      (r : OverrideRequest) (candidate : Candidate) (c : Live)
      → Step c (push_override r candidate c)
  restores :
      (st : Settings) (now frame_id : ℕ) (c : Live) → Step c (restore_override st now frame_id c)
  rolls_back :
      (st : Settings) (now : ℕ) (wanted : Text) (v : Version) (c : Live)
      → Step c (publish_version st now wanted v c)
  refreshes :
      (st : Settings) (raw result : Option Fields) (c : Live)
      → Step c (publish_refresh st raw result c)

-- A number of steps.
pub data Run (c : Live) : ℕ → Live → Type 0 where
  here : Run c zero c
  next : {n : ℕ} {d e : Live} → Run c n d → Step d e → Run c (suc n) e

restore_override-step :
    (st : Settings) (now frame_id : ℕ) (c : Live)
    → (restore_override st now frame_id c ≡ c)
      ⊎ ((restore_override st now frame_id c).revision ≡ bump_revision c.revision)
unfolding restore_override
restore_override-step st now frame_id c =
    elim (Bool-cases (c.closed || not (on_stack frame_id c.override_stack))) [
      | inl h ↦ inl (if-true _ _ _ h)
      | inr h ↦ inr (ap (λ (l : Live). l.revision) (if-false _ _ _ h))
    ]

-- A step leaves all that a candidate copies as it is, or counts the revision up.
pub Step-revision :
    {c d : Live}
    → Step c d
    → (snapshot_candidate c ≡ snapshot_candidate d) ⊎ (d.revision ≡ bump_revision c.revision)
unfolding freeze close publish_candidate push_override publish_version publish_refresh
    snapshot_candidate
Step-revision (freezes c) = inl refl
Step-revision (closes c) = inl refl
Step-revision (publishes candidate c) = inr refl
Step-revision (overrides r candidate c) = inr refl
Step-revision (restores st now frame_id c) = elim (restore_override-step st now frame_id c) [
  | inl h ↦ inl (ap snapshot_candidate (sym h))
  | inr h ↦ inr h
]
Step-revision (rolls_back st now wanted v c) = inr refl
Step-revision (refreshes st raw result c) = inr refl

revision-snapshot :
    (c d : Live) → snapshot_candidate c ≡ snapshot_candidate d → c.revision ≡ d.revision
unfolding snapshot_candidate
revision-snapshot c d h = ap (λ (x : Candidate). x.base_revision) h

-- The revision counts the steps that changed the data.
Run-revision :
    {c d : Live} (n : ℕ)
    → Run c n d
    → c.revision < 2 ^ 64
    → (k : ℕ) × (k ≤ n)
      × (d.revision ≡ (c.revision + k) % 2 ^ 64)
      × ((k ≡ 0) → snapshot_candidate c ≡ snapshot_candidate d)
Run-revision zero here low = (0, omega arith, omega arith, λ z. refl)
Run-revision {c = c} (suc n) (next {d = d} {e = e} run step) low =
    let (k, small, counted, same) = Run-revision n run low in
    elim (Step-revision step) [
      | inl s ↦ (k, omega arith, sym (revision-snapshot d e s) ∙ counted, λ z. same z ∙ s)
      | inr r ↦ (k + 1, omega arith, omega arith, λ z. absurd (omega arith))
    ]

-- Fewer than 2^64 steps that leave the revision as it is leave the data as they are.
pub Run-same :
    {c d : Live} (n : ℕ)
    → Run c n d
    → n < 2 ^ 64
    → c.revision < 2 ^ 64
    → d.revision ≡ c.revision
    → snapshot_candidate c ≡ snapshot_candidate d
Run-same n run few low e =
    let (k, small, counted, same) = Run-revision n run low in same (omega arith)

pub made-injective {ℓ} : {A : Type ℓ} (x y : A) → made x ≡ made y → x ≡ y
made-injective {A = A} x y h = ap (from x) h
  where
    from : A → Attempt A → A
    from z (made w) = w
    from z (refused e) = z

pub bind-made {ℓ κ} :
    {A : Type ℓ} {B : Type κ} (a : Attempt A) (f : A → Attempt B) (y : B)
    → (a >>= f) ≡ made y
    → (x : A) × (a ≡ made x) × (f x ≡ made y)
bind-made (made x) f y h = (x, refl, h)
bind-made (refused e) f y h = cc

outcome_or {ℓ} : {A : Type ℓ} → A → Round A → A
outcome_or x (committed y) = y
outcome_or x again = x
outcome_or x (stopped e) = x

committed-injective {ℓ} : {A : Type ℓ} (x y : A) → committed x ≡ committed y → x ≡ y
unfolding outcome_or
committed-injective x y h = ap (outcome_or x) h

pub commit_ends {ℓ} :
    {A : Type ℓ} (canceled : Bool) (checked : Attempt (Unit {0})) (same : Bool) (x done : A)
    (e : RuntimeError)
    → (if canceled
        then stopped e
        else elim checked [ refused f ↦ stopped f | made _ ↦ if same then committed x else again ])
      ≡ committed done
    → (canceled ≡ false) × (checked ≡ made tt) × (same ≡ true) × (x ≡ done)
commit_ends true checked same x done e h = cc
commit_ends false (refused f) same x done e h = cc
commit_ends false (made u) false x done e h = cc
commit_ends false (made u) true x done e h = (refl, refl, refl, committed-injective x done h)

pub commit_set-committed :
    (canceled : Bool) (candidate : Candidate) (c done : Live)
    → commit_set canceled candidate c ≡ committed done
    → (canceled ≡ false)
      × (check_mutable c ≡ made tt)
      × ((c.revision == candidate.base_revision) ≡ true)
      × (publish_candidate candidate c ≡ done)
unfolding commit_set commit_candidate
commit_set-committed canceled candidate c done h =
    commit_ends canceled (check_mutable c) (c.revision == candidate.base_revision)
      (publish_candidate candidate c) done canceled_error h

round_ends :
    (st : Settings) (r : SetRequest) (canceled : Bool) (later done : Live) (a : Attempt Candidate)
    → (elim a [
      | refused e ↦ stopped e
      | made candidate ↦ elim (st.validate candidate.new_views.env_config) [
        | some failure ↦ elim (mutation_conflict canceled candidate.base_revision later) [
          | refused e ↦ stopped e
          | made true ↦ again
          | made false ↦ stopped (rejected failure)
        ]
        | none ↦ commit_set canceled candidate later
      ]
    ])
      ≡ committed done
    → (candidate : Candidate) × (a ≡ made candidate)
      × (st.validate candidate.new_views.env_config ≡ none)
      × (commit_set canceled candidate later ≡ committed done)
round_ends st r canceled later done (refused e) h = cc
round_ends st r canceled later done (made candidate) h =
    elim (Option-cases (st.validate candidate.new_views.env_config)) [
      | inl e ↦ (candidate, refl, e, rw e at h)
      | inr (failure, e) ↦
          absurd (
            no_commit (mutation_conflict canceled candidate.base_revision later) failure
              (rw e at h))
    ]
  where
    no_commit :
        (a : Attempt Bool) (failure : Text)
        → (elim a [
          | refused e ↦ stopped e
          | made true ↦ again
          | made false ↦ stopped (rejected failure)
        ])
          ≢ committed done
    no_commit (refused e) failure x = cc
    no_commit (made true) failure x = cc
    no_commit (made false) failure x = cc

pub set_round-committed :
    (st : Settings) (r : SetRequest) (canceled : Bool) (c later done : Live)
    → set_round st r canceled c later ≡ committed done
    → (candidate : Candidate) × (begin_set st r c ≡ made candidate)
      × (st.validate candidate.new_views.env_config ≡ none)
      × (commit_set canceled candidate later ≡ committed done)
unfolding set_round
set_round-committed st r canceled c later done h =
    round_ends st r canceled later done (begin_set st r c) h
