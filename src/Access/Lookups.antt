-- ===== src/Access/Lookups.antt =====
-- Has and Get look up a path in the same places.
use mathlib.Core.Option.{some-injective}
use confii_go.Base.{Bool, true, false, Option, none, some, ◌≡◌, ◌↔◌, ◌⊎◌, inl, inr, refl, ap, ◌∙◌}
use confii_go.Base.{Text, if◌then◌else◌}
use confii_go.Value.{Value, Fields, text}
use confii_go.Configmap.{get, has}
use confii_go.Access.{
  says_not_found, access_canceled, Access, gave, denied, Hooked, hooked, hook_error, Lookup,
  lookup_sysenv, is_found, has_path, after_hooks, get_sysenv, get_missing, get_with_context,
}

module _ {E : Type 0} (is_not_found : E → Bool) (o : Lookup)
    (process : Text → Value → Hooked E) where
  -- `errors.Is(err, ErrConfigNotFound)` on what Get returns.
  abbrev pub IsNotFound : Access E Value → Type 0
  IsNotFound (gave v) = ⊥
  IsNotFound (denied e) = says_not_found is_not_found e ≡ true

  -- The path stands in the environment of the process only, and a hook on its value returns an error
  -- that reads as a path that is not found.
  abbrev pub HookSaysNotFound : Option Fields → Text → Type 0
  HookSaysNotFound env_config path =
      (s : Text) × (e : E) × (get env_config path ≡ none)
      × (o.sysenv_fallback ≡ true)
      × (lookup_sysenv o path ≡ some s)
      × (process path (text s) ≡ hook_error e)
      × (is_not_found e ≡ true)

  -- Get says that a path is not found exactly if the context is not canceled, and Has says that the path
  -- is not there or a hook on its value in the environment of the process returns such an error itself.
  pub has_path-get_with_context :
      (canceled : Bool) (env_config : Option Fields) (path : Text)
      → IsNotFound (get_with_context o process canceled env_config path) ↔ (
          (canceled ≡ false)
          × ((has_path o env_config path ≡ false) ⊎ HookSaysNotFound env_config path))
  unfolding get_with_context has_path has get_missing get_sysenv
  has_path-get_with_context canceled env_config path =
      top canceled (get env_config path) o.sysenv_fallback (lookup_sysenv o path)
    where
      looked : Option Text → Access E Value
      looked found = get_sysenv o process env_config path found

      Ends : Option Value → Bool → Option Text → Type 0
      Ends value fallback found =
          (s : Text) × (e : E) × (value ≡ none)
          × (fallback ≡ true)
          × (found ≡ some s)
          × (process path (text s) ≡ hook_error e)
          × (is_not_found e ≡ true)

      after :
          (h : Hooked E)
          → IsNotFound (after_hooks o process h)
          → (e : E) × (h ≡ hook_error e) × (is_not_found e ≡ true)
      after (hooked v) x = absurd x
      after (hook_error e) x = (e, refl, x)

      before :
          (h : Hooked E) (e : E)
          → h ≡ hook_error e
          → is_not_found e ≡ true
          → IsNotFound (after_hooks o process h)
      before (hooked v) e k x = cc
      before (hook_error f) e k x = cc

      there :
          (value : Option Value) (fallback : Bool) (found : Option Text)
          → IsNotFound
              (elim value [ none ↦ looked (if fallback then found else none) | some v ↦ gave v ])
          → ((if elim value [ none ↦ false | some v ↦ true ]
                then true
                else if fallback
                then is_found found
                else false)
              ≡ false)
            ⊎ Ends value fallback found
      there (some v) fallback found x = absurd x
      there none false found x = inl refl
      there none true none x = inl refl
      there none true (some s) x =
          let (e, h, y) = after (process path (text s)) x in inr (s, e, refl, refl, refl, h, y)

      back :
          (value : Option Value) (fallback : Bool) (found : Option Text)
          → ((if elim value [ none ↦ false | some v ↦ true ]
                then true
                else if fallback
                then is_found found
                else false)
              ≡ false)
            ⊎ Ends value fallback found
          → IsNotFound
              (elim value [ none ↦ looked (if fallback then found else none) | some v ↦ gave v ])
      back (some v) fallback found (inl x) = cc
      back (some v) fallback found (inr (s, e, a, b, c, h, y)) = cc
      back none false found x = refl
      back none true none x = refl
      back none true (some s) (inl x) = cc
      back none true (some s) (inr (t, e, a, b, c, h, y)) =
          before (process path (text s)) e
            (ap (λ (q : Text). process path (text q)) (some-injective s t c) ∙ h) y

      top :
          (canceled : Bool) (value : Option Value) (fallback : Bool) (found : Option Text)
          → IsNotFound (
              if canceled then denied access_canceled else elim value [
                | none ↦ looked (if fallback then found else none)
                | some v ↦ gave v
              ])
            ↔ ((canceled ≡ false)
                × (((if elim value [ none ↦ false | some v ↦ true ]
                        then true
                        else if fallback
                        then is_found found
                        else false)
                      ≡ false)
                    ⊎ Ends value fallback found))
      top true value fallback found = (λ x. cc, λ x. cc)
      top false value fallback found =
          (λ x. (refl, there value fallback found x), λ x. back value fallback found x.1)
