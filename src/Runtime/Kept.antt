-- ===== src/Runtime/Kept.antt =====
-- config_mutation.go: the sensitive paths that Set leaves.
use mathlib.Core.Path.{subst}
use confii_go.Base.{
  ◌≡◌, ◌↔◌, List, true, contains_text, refl, sym, ◌∙◌, inl, inr, ℕ, Bool, not, ◌&&◌, Bool-cases,
  if-true, if-false, Text, codes,
}
use confii_go.Value.{Value}
use confii_go.Configmap.{has}
use confii_go.Runtime.State.{Live, Settings, made, committed}
use confii_go.Runtime.Sensitive.{sensitive_paths_for}
use confii_go.Runtime.Marked.{IsHidden, sensitive_paths_for-IsHidden}
use confii_go.Runtime.Candidates.{
  Candidate, snapshot_candidate, set_candidate, write_views, publish_candidate,
}
use confii_go.Runtime.Sets.{SetRequest, set_round}
use confii_go.Runtime.Atomic.{bind-made, made-injective, set_round-committed, commit_set-committed}
use confii_go.Runtime.Serial.{set_on, begun}

-- The paths belong to the maps of the candidate.
abbrev IsCurrent : Settings → Candidate → Type 0
IsCurrent st x = x.new_sensitive ≡ sensitive_paths_for x.new_views.unresolved st.declared_sensitive

set_candidate-IsCurrent :
    (st : Settings) (now : ℕ) (key : Text) (raw effective : Value) (source : Text)
    (snap candidate : Candidate)
    → set_candidate st now key raw effective source snap ≡ made candidate
    → IsCurrent st candidate
unfolding set_candidate
set_candidate-IsCurrent st now key raw effective source snap candidate h =
    let (v, e, f) = bind-made (write_views key raw effective snap.new_views) _ candidate h in
    subst (IsCurrent st) (made-injective _ candidate f) refl

set_on-IsCurrent :
    (st : Settings) (r : SetRequest) (snap candidate : Candidate)
    → set_on st r snap ≡ made candidate
    → IsCurrent st candidate
unfolding set_on
set_on-IsCurrent st r snap candidate h =
    elim (Bool-cases (not r.allow_override && has snap.new_views.env_config r.key)) [
      | inl e ↦ cc (sym (if-true _ _ _ e) ∙ h)
      | inr e ↦
          set_candidate-IsCurrent st r.now r.key r.raw r.effective (codes "runtime") snap candidate
            (sym (if-false _ _ _ e) ∙ h)
    ]

set_round-sensitive_paths_for :
    (st : Settings) (r : SetRequest) (canceled : Bool) (c later done : Live)
    → set_round st r canceled c later ≡ committed done
    → done.sensitive_paths ≡ sensitive_paths_for done.views.unresolved st.declared_sensitive
unfolding publish_candidate
set_round-sensitive_paths_for st r canceled c later done h =
    let (candidate, e, _, g) = set_round-committed st r canceled c later done h in
    let (_, _, _, published) = commit_set-committed canceled candidate later done g in
    let (on_copy, _) = begun st r c candidate e in
    subst
      (λ (l : Live).
        l.sensitive_paths ≡ sensitive_paths_for l.views.unresolved st.declared_sensitive)
      published (set_on-IsCurrent st r (snapshot_candidate c) candidate on_copy)

-- After a round of Set that commits, a path is sensitive exactly if it is declared, or if keys that
-- make this path, which is not empty, lead in the unresolved configuration to a text that holds a
-- reference to a secret. An element of a list has the keys of the list. What was sensitive before plays
-- no part.
pub set_round-IsHidden :
    (st : Settings) (r : SetRequest) (canceled : Bool) (c later done : Live) (p : Text)
    → set_round st r canceled c later ≡ committed done
    → (contains_text done.sensitive_paths p ≡ true)
      ↔ IsHidden done.views.unresolved st.declared_sensitive p
set_round-IsHidden st r canceled c later done p h =
    subst
      (λ (paths : List Text).
        (contains_text paths p ≡ true) ↔ IsHidden done.views.unresolved st.declared_sensitive p)
      (sym (set_round-sensitive_paths_for st r canceled c later done h))
      (sensitive_paths_for-IsHidden done.views.unresolved st.declared_sensitive p)
