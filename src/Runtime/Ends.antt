-- ===== src/Runtime/Ends.antt =====
-- config_mutation.go: the end of the loop of Set.
use confii_go.Base.{
  ◌≡◌, ◌≢◌, refl, sym, ◌∙◌, ℕ, Bool, true, false, not, Option, none, some, List, [], ◌∷◌, ◌++◌,
  ◌==◌, ==_iff, if◌then◌else◌,
}
use confii_go.Base.{Text}
use confii_go.Runtime.State.{
  Live, Settings, canceled_error, closed_error, rejected, Attempt, made, refused, check_mutable,
  Round, committed, again, stopped,
}
use confii_go.Runtime.Candidates.{Candidate, publish_candidate, mutation_conflict, commit_candidate}
use confii_go.Runtime.Sets.{SetRequest, begin_set, commit_set, set_round, Meeting, set_loop}
use confii_go.Runtime.Serial.{begun}

mutation_conflict_quiet :
    (canceled : Bool) (revision : ℕ) (c : Live)
    → (c.revision == revision) ≡ true
    → mutation_conflict canceled revision c ≢ made true
unfolding mutation_conflict
mutation_conflict_quiet true revision c h e = cc
mutation_conflict_quiet false revision c h e = go c.closed e
  where
    go :
        (b : Bool)
        → (if b then refused closed_error else made (not (c.revision == revision))) ≢ made true
    go true e = cc
    go false e = cc (rw h at e)

commit_ends {ℓ} :
    {A : Type ℓ} (canceled : Bool) (checked : Attempt (Unit {0})) (same : Bool) (x : A)
    → same ≡ true
    → (if canceled
        then stopped canceled_error
        else elim checked [ refused f ↦ stopped f | made _ ↦ if same then committed x else again ])
      ≢ again
commit_ends true checked same x h e = cc
commit_ends false (refused f) same x h e = cc
commit_ends false (made u) false x h e = cc
commit_ends false (made u) true x h e = cc

commit_set_quiet :
    (canceled : Bool) (candidate : Candidate) (c : Live)
    → (c.revision == candidate.base_revision) ≡ true
    → commit_set canceled candidate c ≢ again
unfolding commit_set commit_candidate
commit_set_quiet canceled candidate c h x =
    commit_ends canceled (check_mutable c) (c.revision == candidate.base_revision)
      (publish_candidate candidate c) h x

-- The part of a round after its snapshot.
round_quiet :
    (st : Settings) (canceled : Bool) (later : Live) (a : Attempt Candidate)
    → ((candidate : Candidate)
        → a ≡ made candidate
        → (later.revision == candidate.base_revision) ≡ true)
    → (elim a [
      | refused e ↦ stopped e
      | made candidate ↦ elim (st.validate candidate.new_views.env_config) [
        | some failure ↦ elim (mutation_conflict canceled candidate.base_revision later) [
          | refused e ↦ stopped e
          | made true ↦ again
          | made false ↦ stopped (rejected failure)
        ]
        | none ↦ commit_set canceled candidate later
      ]
    ])
      ≢ again
round_quiet st canceled later (refused e) h x = cc
round_quiet st canceled later (made candidate) h x =
    after (st.validate candidate.new_views.env_config) x
  where
    conflict :
        (a : Attempt Bool) (failure : Text)
        → a ≢ made true
        → ◌≢◌ {A = Round Live}
            (elim a [
              | refused e ↦ stopped e
              | made true ↦ again
              | made false ↦ stopped (rejected failure)
            ])
            again
    conflict (refused e) failure n x = cc
    conflict (made true) failure n x = n refl
    conflict (made false) failure n x = cc

    after :
        (o : Option Text)
        → (elim o [
          | some failure ↦ elim (mutation_conflict canceled candidate.base_revision later) [
            | refused e ↦ stopped e
            | made true ↦ again
            | made false ↦ stopped (rejected failure)
          ]
          | none ↦ commit_set canceled candidate later
        ])
          ≢ again
    after none z = commit_set_quiet canceled candidate later (h candidate refl) z
    after (some failure) z =
        conflict (mutation_conflict canceled candidate.base_revision later) failure
          (mutation_conflict_quiet canceled candidate.base_revision later (h candidate refl)) z

set_round_quiet :
    (st : Settings) (r : SetRequest) (canceled : Bool) (c later : Live)
    → later.revision ≡ c.revision
    → set_round st r canceled c later ≢ again
unfolding set_round
set_round_quiet st r canceled c later e x =
    round_quiet st canceled later (begin_set st r c)
      (λ candidate f.
        (==_iff later.revision candidate.base_revision).1 (e ∙ sym ((begun st r c candidate f).1)))
      x

set_loop_step :
    (st : Settings) (r : SetRequest) (m : Meeting) (ms : List Meeting)
    → (set_round st r m.is_canceled m.at_read m.at_write ≡ again → set_loop st r ms ≢ none)
    → set_loop st r (m ∷ ms) ≢ none
unfolding set_loop
set_loop_step st r m ms h z = go (set_round st r m.is_canceled m.at_read m.at_write) h z
  where
    go :
        (x : Round Live)
        → (x ≡ again → set_loop st r ms ≢ none)
        → (elim x [
          | again ↦ set_loop st r ms
          | committed c ↦ some (committed c)
          | stopped e ↦ some (stopped e)
        ])
          ≢ none
    go again f e = f refl e
    go (committed c) f e = cc
    go (stopped e) f z = cc

-- The loop of Set ends at the latest with the first round during which the revision does not change,
-- whatever the rounds before it met.
pub set_loop_ends :
    (st : Settings) (r : SetRequest) (before after : List Meeting) (m : Meeting)
    → m.at_write.revision ≡ m.at_read.revision
    → set_loop st r (before ++ (m ∷ after)) ≢ none
set_loop_ends st r [] after m e z =
    set_loop_step st r m after
      (λ x. absurd (set_round_quiet st r m.is_canceled m.at_read m.at_write e x)) z
set_loop_ends st r (b ∷ before) after m e z =
    set_loop_step st r b (before ++ (m ∷ after)) (λ x. set_loop_ends st r before after m e) z
