-- ===== src/Runtime/Serial.antt =====
-- config_mutation.go: the order in which rounds of Set take effect.
use confii_go.Base.{
  ◌≡◌, refl, sym, ◌∙◌, ap, inl, inr, ℕ, ◌^◌, ◌<◌, Bool, false, not, ◌&&◌, none, ==_iff,
  if◌then◌else◌, Bool-cases, if-true, if-false,
}
use confii_go.Base.{Text, codes}
use confii_go.Value.{Value}
use confii_go.Configmap.{has}
use confii_go.Runtime.State.{
  Live, Settings, key_exists, Attempt, made, refused, ◌>>=◌, check_mutable, committed,
}
use confii_go.Runtime.Candidates.{Candidate, snapshot_candidate, set_candidate, write_views}
use confii_go.Runtime.Sets.{SetRequest, begin_set, commit_set, set_round}
use confii_go.Runtime.Atomic.{
  bind-made, made-injective, Run, Run-same, set_round-committed, commit_set-committed,
}

-- What Set does with a copy of the state.
unfoldable pub set_on : Settings → SetRequest → Candidate → Attempt Candidate
set_on st r snap =
    if not r.allow_override && has snap.new_views.env_config r.key
    then refused (key_exists r.key)
    else set_candidate st r.now r.key r.raw r.effective (codes "runtime") snap

begin_set-set_on :
    (st : Settings) (r : SetRequest) (c : Live)
    → begin_set st r c ≡ (check_mutable c >>= λ _. set_on st r (snapshot_candidate c))
unfolding begin_set set_on snapshot_candidate
begin_set-set_on st r c = refl

set_candidate-base :
    (st : Settings) (now : ℕ) (key : Text) (raw effective : Value) (source : Text)
    (snap candidate : Candidate)
    → set_candidate st now key raw effective source snap ≡ made candidate
    → candidate.base_revision ≡ snap.base_revision
unfolding set_candidate
set_candidate-base st now key raw effective source snap candidate h =
    let (v, e, f) = bind-made (write_views key raw effective snap.new_views) _ candidate h in
    sym (ap (λ (x : Candidate). x.base_revision) (made-injective _ candidate f))

set_on-base :
    (st : Settings) (r : SetRequest) (snap candidate : Candidate)
    → set_on st r snap ≡ made candidate
    → candidate.base_revision ≡ snap.base_revision
unfolding set_on
set_on-base st r snap candidate h =
    elim (Bool-cases (not r.allow_override && has snap.new_views.env_config r.key)) [
      | inl e ↦ cc (sym (if-true _ _ _ e) ∙ h)
      | inr e ↦
          set_candidate-base st r.now r.key r.raw r.effective (codes "runtime") snap candidate
            (sym (if-false _ _ _ e) ∙ h)
    ]

-- What a begun round has read.
pub begun :
    (st : Settings) (r : SetRequest) (c : Live) (candidate : Candidate)
    → begin_set st r c ≡ made candidate
    → (set_on st r (snapshot_candidate c) ≡ made candidate) × (candidate.base_revision ≡ c.revision)
unfolding snapshot_candidate
begun st r c candidate h =
    let (u, e, f) = bind-made (check_mutable c) _ candidate (sym (begin_set-set_on st r c) ∙ h) in
    (f, set_on-base st r (snapshot_candidate c) candidate f)

set_round_alone :
    (st : Settings) (r : SetRequest) (c : Live) (candidate : Candidate)
    → begin_set st r c ≡ made candidate
    → st.validate candidate.new_views.env_config ≡ none
    → set_round st r false c c ≡ commit_set false candidate c
unfolding set_round
set_round_alone st r c candidate e f = rw (e, set_round) (rw (f, set_round) refl)

commit_set_now :
    (canceled : Bool) (candidate : Candidate) (c done : Live)
    → commit_set canceled candidate c ≡ committed done
    → commit_set false candidate c ≡ committed done
commit_set_now canceled candidate c done h =
    let (e, a, b, d) = commit_set-committed canceled candidate c done h in
    ap (λ x. commit_set x candidate c) (sym e) ∙ h

-- If a round of Set commits, after fewer than 2^64 steps of other operations since it copied the
-- state, then Set alone, begun at the state in which it commits, has the same result.
pub set_round_serial :
    {c later : Live} (st : Settings) (r : SetRequest) (canceled : Bool) (n : ℕ) (done : Live)
    → Run c n later
    → n < 2 ^ 64
    → c.revision < 2 ^ 64
    → set_round st r canceled c later ≡ committed done
    → set_round st r false later later ≡ committed done
set_round_serial {c = c} {later = later} st r canceled n done run few low h =
    let (candidate, e, f, g) = set_round-committed st r canceled c later done h in
    let (live, mutable, current, published) =
      commit_set-committed canceled candidate later done g in
    let (made_it, based) = begun st r c candidate e in
    let same =
      Run-same n run few low ((==_iff later.revision candidate.base_revision).0 current ∙ based) in
    let restarted : begin_set st r later ≡ made candidate =
      begin_set-set_on st r later
      ∙ ap (λ a. a >>= λ _. set_on st r (snapshot_candidate later)) mutable
      ∙ ap (set_on st r) (sym same)
      ∙ made_it in
    set_round_alone st r later candidate restarted f
    ∙ commit_set_now canceled candidate later done g
