-- ===== src/Sourcetrack/Origins.antt =====
-- Which source a record names after a configuration is tracked.
use mathlib.Core.Path.{subst}
use confii_go.Base.{
  ◌≢◌, ◌≡◌, refl, ◌∙◌, ◌⊎◌, inl, inr, true, false, some, List, [], ◌∷◌, ◌++◌, arith,
}
use confii_go.Base.{
  Text, text_eq, text_eq_iff, contains_text, contains-append, Bool-cases, Option-cases,
}
use confii_go.Base.Int.{ℤ}
use confii_go.Base.Dict.{find, find-put, find-put_other}
use confii_go.Value.{
  Value, Fields, null, boolean, integer, float, text, sequence, mapping, nil_mapping, end, field,
}
use confii_go.Configmap.{extend, collect, collect_value}
use confii_go.Sourcetrack.{SourceInfo, Tracker, track_value, track_config, track_entry, move_origin}
use confii_go.Base.{ℕ}

-- The record of a key names a source and a loader.
abbrev pub ComesFrom : Text → Text → Tracker → Text → Type 0
ComesFrom source loader t k =
    (info : SourceInfo) × (find k t.sources ≡ some info)
    × (info.source_file ≡ source)
    × (info.loader_type ≡ loader)

track_value_here :
    (key : Text) (v : Value) (source loader environment : Text) (line : ℤ) (now : ℕ) (t : Tracker)
    → ComesFrom source loader (track_value key v source loader environment line now t) key
unfolding track_value move_origin
track_value_here key v source loader environment line now t =
    elim (Option-cases (find key t.sources)) [
      | inl e ↦ rw (e, track_value) (_, find-put key _ t.sources, refl, refl)
      | inr (info, e) ↦ rw (e, track_value) (_, find-put key _ t.sources, refl, refl)
    ]

track_value_other :
    (key k : Text) (v : Value) (source loader environment : Text) (line : ℤ) (now : ℕ) (t : Tracker)
    → text_eq key k ≡ false
    → find k (track_value key v source loader environment line now t).sources ≡ find k t.sources
unfolding track_value
track_value_other key k v source loader environment line now t h =
    elim (Option-cases (find key t.sources)) [
      | inl e ↦ rw (e, track_value) (find-put_other key k _ t.sources h)
      | inr (info, e) ↦ rw (e, track_value) (find-put_other key k _ t.sources h)
    ]

contains-empty : (k : Text) → contains_text [] k ≢ true
unfolding contains_text
contains-empty k h = cc

contains_later :
    (k : Text) (ks js : List Text)
    → contains_text ks k ≡ false
    → contains_text (ks ++ js) k ≡ true
    → contains_text js k ≡ true
contains_later k ks js a b = let e = contains-append k ks js in ground arith

contains_neither :
    (k : Text) (ks js : List Text)
    → contains_text (ks ++ js) k ≡ false
    → (contains_text ks k ≡ false) × (contains_text js k ≡ false)
contains_neither k ks js h = let e = contains-append k ks js in ground arith

module _ (source loader environment : Text) (positions : Text → ℤ) (now : Text → ℕ) where
  -- What every write keeps, the tracking of a configuration keeps.
  mutual
    unfolding track_config

    pub track_config_keeps :
        (P : Tracker → Type 0)
        → ((path : Text) (v : Value) (t : Tracker)
            → P t
            → P (track_value path v source loader environment (positions path) (now path) t))
        → (m : Fields) (prefix : Text) (t : Tracker) → P t
        → P (track_config source loader environment positions now m prefix t)
    track_config_keeps P step end prefix t h = h
    track_config_keeps P step (field k v rest) prefix t h =
        track_config_keeps P step rest prefix
          (track_entry source loader environment positions now (extend prefix k) v t)
          (track_entry_keeps P step v (extend prefix k) t h)

    track_entry_keeps :
        (P : Tracker → Type 0)
        → ((path : Text) (v : Value) (t : Tracker)
            → P t
            → P (track_value path v source loader environment (positions path) (now path) t))
        → (v : Value) (path : Text) (t : Tracker) → P t
        → P (track_entry source loader environment positions now path v t)
    track_entry_keeps P step (mapping m) path t h = track_config_keeps P step m path t h
    track_entry_keeps P step nil_mapping path t h = h
    track_entry_keeps P step null path t h = step path null t h
    track_entry_keeps P step (boolean b) path t h = step path (boolean b) t h
    track_entry_keeps P step (integer i) path t h = step path (integer i) t h
    track_entry_keeps P step (float f) path t h = step path (float f) t h
    track_entry_keeps P step (text s) path t h = step path (text s) t h
    track_entry_keeps P step (sequence xs) path t h = step path (sequence xs) t h

  -- A later write from the same source leaves the record with that source.
  write_keeps_origin :
      (k path : Text) (v : Value) (t : Tracker)
      → ComesFrom source loader t k
      → ComesFrom source loader
          (track_value path v source loader environment (positions path) (now path) t)
          k
  write_keeps_origin k path v t (info, e, a, b) = elim (Bool-cases (text_eq path k)) [
    | inl same ↦
        subst
          (ComesFrom source loader
            (track_value path v source loader environment (positions path) (now path) t))
          ((text_eq_iff path k).0 same)
          (track_value_here path v source loader environment (positions path) (now path) t)
    | inr differ ↦ (
      info,
      track_value_other path k v source loader environment (positions path) (now path) t differ ∙ e,
      a,
      b,
    )
  ]

  other_leaf :
      (k path : Text) (v : Value) (t : Tracker)
      → contains_text (path ∷ []) k ≡ false
      → find k (track_value path v source loader environment (positions path) (now path) t).sources
        ≡ find k t.sources
  other_leaf k path v t h =
      track_value_other path k v source loader environment (positions path) (now path) t
        (unfold contains_text in ground arith)

  one_leaf :
      (k path : Text) (v : Value) (t : Tracker)
      → contains_text (path ∷ []) k ≡ true
      → ComesFrom source loader
          (track_value path v source loader environment (positions path) (now path) t)
          k
  one_leaf k path v t h =
      subst
        (ComesFrom source loader
          (track_value path v source loader environment (positions path) (now path) t))
        ((text_eq_iff path k).0 (unfold contains_text in ground arith))
        (track_value_here path v source loader environment (positions path) (now path) t)

  mutual
    unfolding track_config collect

    reach_config :
        (m : Fields) (prefix k : Text) (t : Tracker)
        → contains_text (collect prefix m) k ≡ true
        → ComesFrom source loader
            (track_config source loader environment positions now m prefix t)
            k
    reach_config end prefix k t h = absurd (contains-empty k h)
    reach_config (field j v rest) prefix k t h =
        elim (Bool-cases (contains_text (collect_value (extend prefix j) v) k)) [
          | inl here ↦
              track_config_keeps (λ s. ComesFrom source loader s k)
                (λ p w s x. write_keeps_origin k p w s x) rest prefix
                (track_entry source loader environment positions now (extend prefix j) v t)
                (reach_entry v (extend prefix j) k t here)
          | inr there ↦
              reach_config rest prefix k
                (track_entry source loader environment positions now (extend prefix j) v t)
                (contains_later k (collect_value (extend prefix j) v) (collect prefix rest) there h)
        ]

    reach_entry :
        (v : Value) (path k : Text) (t : Tracker)
        → contains_text (collect_value path v) k ≡ true
        → ComesFrom source loader (track_entry source loader environment positions now path v t) k
    reach_entry (mapping m) path k t h = reach_config m path k t h
    reach_entry nil_mapping path k t h = absurd (contains-empty k h)
    reach_entry null path k t h = one_leaf k path null t h
    reach_entry (boolean b) path k t h = one_leaf k path (boolean b) t h
    reach_entry (integer i) path k t h = one_leaf k path (integer i) t h
    reach_entry (float f) path k t h = one_leaf k path (float f) t h
    reach_entry (text s) path k t h = one_leaf k path (text s) t h
    reach_entry (sequence xs) path k t h = one_leaf k path (sequence xs) t h

  mutual
    unfolding track_config collect

    frame_config :
        (m : Fields) (prefix k : Text) (t : Tracker)
        → contains_text (collect prefix m) k ≡ false
        → find k (track_config source loader environment positions now m prefix t).sources
          ≡ find k t.sources
    frame_config end prefix k t h = refl
    frame_config (field j v rest) prefix k t h =
        let (first, second) =
          contains_neither k (collect_value (extend prefix j) v) (collect prefix rest) h in
        frame_config rest prefix k
          (track_entry source loader environment positions now (extend prefix j) v t) second
        ∙ frame_entry v (extend prefix j) k t first

    frame_entry :
        (v : Value) (path k : Text) (t : Tracker)
        → contains_text (collect_value path v) k ≡ false
        → find k (track_entry source loader environment positions now path v t).sources
          ≡ find k t.sources
    frame_entry (mapping m) path k t h = frame_config m path k t h
    frame_entry nil_mapping path k t h = refl
    frame_entry null path k t h = other_leaf k path null t h
    frame_entry (boolean b) path k t h = other_leaf k path (boolean b) t h
    frame_entry (integer i) path k t h = other_leaf k path (integer i) t h
    frame_entry (float f) path k t h = other_leaf k path (float f) t h
    frame_entry (text s) path k t h = other_leaf k path (text s) t h
    frame_entry (sequence xs) path k t h = other_leaf k path (sequence xs) t h

  -- After a configuration is tracked, every path that `Keys` lists for it names its source and its
  -- loader, whatever was recorded before, and the record of every other path is what it was.
  pub track_config_origins :
      (m : Fields) (t : Tracker) (k : Text)
      → ((contains_text (collect [] m) k ≡ true)
          × ComesFrom source loader (track_config source loader environment positions now m [] t) k)
        ⊎ ((contains_text (collect [] m) k ≡ false)
            × (find k (track_config source loader environment positions now m [] t).sources
                ≡ find k t.sources))
  track_config_origins m t k = elim (Bool-cases (contains_text (collect [] m) k)) [
    | inl e ↦ inl (e, reach_config m [] k t e)
    | inr e ↦ inr (e, frame_config m [] k t e)
  ]
