-- ===== src/Envhandler/Detection.antt =====
-- When a configuration is read as sections.
use confii_go.Base.Split.{is_empty}
use confii_go.Base.{
  not, ◌&&◌, text_eq_refl, ◌↔◌, ◌≡◌, ◌≢◌, ◌⊎◌, refl, true, false, Option, none, some, [], ◌∷◌,
  arith,
}
use confii_go.Base.{Text, text_eq, text_eq_iff, Bool-cases, inl, inr}
use confii_go.Value.{Value, Fields, end, field}
use confii_go.Value.Maps.{lookup, UniqueKeys}
use confii_go.Envhandler.{
  default_key, is_map, is_map_at, is_present, has_other_map, is_env_mode, is_environment_aware,
}

-- A key other than `default` holds a map.
abbrev pub OtherMap : Fields → Type 0
OtherMap config =
    (k : Text) × (v : Value) × (k ≢ default_key) × (lookup k config ≡ some v) × (is_map v ≡ true)

OtherMap-field :
    (k : Text) (v : Value) (rest : Fields)
    → lookup k rest ≡ none
    → OtherMap rest
    → OtherMap (field k v rest)
unfolding lookup
OtherMap-field k v rest fresh (j, w, ne, x, y) = elim (Bool-cases (text_eq k j)) [
  | inl same ↦ let e : k ≡ j = (text_eq_iff k j).0 same in cc (rw e at fresh)
  | inr differ ↦ (j, w, ne, rw differ x, y)
]

has_other_map-OtherMap :
    (config : Fields) → UniqueKeys config → has_other_map config ≡ true → OtherMap config
unfolding has_other_map lookup
has_other_map-OtherMap end u h = cc
has_other_map-OtherMap (field k v rest) u h =
    let below : has_other_map rest ≡ true → OtherMap (field k v rest) =
      λ x. OtherMap-field k v rest u.0 (has_other_map-OtherMap rest u.1 x) in
    elim (Bool-cases (text_eq k default_key)) [
      | inl d ↦ below (rw d at h)
      | inr d ↦ elim (Bool-cases (is_map v)) [
        | inl m ↦ (k, v, (λ e. cc ((text_eq_iff k default_key).1 e)), rw text_eq_refl, m)
        | inr m ↦ below (rw (d, m) at h)
      ]
    ]

OtherMap-has_other_map :
    (config : Fields) (k : Text) (v : Value)
    → k ≢ default_key
    → lookup k config ≡ some v
    → is_map v ≡ true
    → has_other_map config ≡ true
unfolding has_other_map lookup
OtherMap-has_other_map end k v ne x y = cc
OtherMap-has_other_map (field j w rest) k v ne x y =
    ground (arith, text_eq_iff j k, text_eq_iff j default_key, OtherMap-has_other_map rest k v ne)

-- The two signals: the environment has a key of its own, or `default` and another key hold maps.
abbrev pub Signal : Fields → Text → Type 0
Signal config env =
    ((env ≢ []) × (lookup env config ≢ none))
    ⊎ ((is_map_at (lookup default_key config) ≡ true) × OtherMap config)

is_present_iff : (o : Option Value) → (is_present o ≡ true) ↔ (o ≢ none)
is_present_iff none = ((λ h. cc), (λ h. absurd (h refl)))
is_present_iff (some v) = ((λ h e. cc), (λ h. refl))

is_empty-false : (s : Text) → (is_empty s ≡ false) ↔ (s ≢ [])
is_empty-false [] = ((λ h. cc), (λ h. absurd (h refl)))
is_empty-false (c ∷ s) = ((λ h e. cc), (λ h. refl))

is_present_of_map : (o : Option Value) → is_map_at o ≡ true → is_present o ≡ true
is_present_of_map none h = cc
is_present_of_map (some v) h = refl

second_signal :
    (config : Fields) (env : Text)
    → is_environment_aware config env ≡ true
    → (not (is_empty env) && is_present (lookup env config)) ≡ false
    → (is_map_at (lookup default_key config) ≡ true) × (has_other_map config ≡ true)
unfolding is_environment_aware is_env_mode
second_signal config env h other = ground arith

-- A configuration without repeated keys is read as sections exactly when it gives one of the two
-- signals.
pub aware_iff :
    (config : Fields) (env : Text)
    → UniqueKeys config
    → (is_environment_aware config env ≡ true) ↔ Signal config env
aware_iff config env u = (to_signal, from_signal)
  where
    to_signal : is_environment_aware config env ≡ true → Signal config env
    to_signal h = elim (Bool-cases (not (is_empty env) && is_present (lookup env config))) [
      | inl own ↦ inl (
        (is_empty-false env).0 (ground arith),
        (is_present_iff (lookup env config)).0 (ground arith),
      )
      | inr other ↦
          let (default_map, others) = second_signal config env h other in
          inr (default_map, has_other_map-OtherMap config u others)
    ]

    from_signal : Signal config env → is_environment_aware config env ≡ true
    from_signal (inl (named, present)) =
        unfold is_environment_aware is_env_mode in
        (let a = (is_empty-false env).1 named in
          let b = (is_present_iff (lookup env config)).1 present in ground arith)
    from_signal (inr (default_map, (k, v, ne, x, y))) =
        let a = is_present_of_map (lookup default_key config) default_map in
        let b = OtherMap-has_other_map config k v ne x y in
        unfold is_environment_aware is_env_mode in ground arith
