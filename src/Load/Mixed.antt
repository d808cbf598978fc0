-- ===== src/Load/Mixed.antt =====
-- The conflicts of a list of writers.
use confii_go.Base.{
  Bool, true, false, not, ◌&&◌, ◌||◌, Option, none, some, List, [], ◌∷◌, ◌++◌, ◌≡◌, refl, ap, sym,
  ◌∙◌, arith, inl, inr, Bool-cases, if-true, if-false,
}
use confii_go.Base.{Text, text_eq, text_eq_iff, contains_text, if◌then◌else◌}
use confii_go.Base.Dict.{Dict, find, put, find-put, find-put_other, IsDistinct, put-IsDistinct}
use confii_go.Load.Conflicts.{
  Writer, Conflict, is_section, has_sectioned, has_named, insert_conflict, add_conflict, writers_of,
  add_writer, mixed_environment_conflicts,
}

abbrev pub conflict_keys : List Conflict → List Text
conflict_keys [] = []
conflict_keys (c ∷ cs) = c.key ∷ conflict_keys cs

-- Both families are among the writers.
abbrev pub mixed : List Writer → Bool
mixed ws = has_sectioned ws && has_named ws

contains-insert_conflict :
    (k : Text) (c : Conflict) (cs : List Conflict)
    → contains_text (conflict_keys (insert_conflict c cs)) k
      ≡ (text_eq c.key k || contains_text (conflict_keys cs) k)
unfolding insert_conflict contains_text
contains-insert_conflict k c [] = refl
contains-insert_conflict k c (d ∷ ds) = ground (arith, contains-insert_conflict k c ds)

contains-add_conflict :
    (k key : Text) (ws : List Writer) (rest : List Conflict)
    → contains_text (conflict_keys (add_conflict key ws rest)) k
      ≡ ((text_eq key k && mixed ws) || contains_text (conflict_keys rest) k)
unfolding add_conflict has_sectioned
contains-add_conflict k key [] rest = ground arith
contains-add_conflict k key (w ∷ ws) rest =
    elim (Bool-cases (has_sectioned (w ∷ ws) && has_named (w ∷ ws))) [
      | inl h ↦
          ap (λ cs. contains_text (conflict_keys cs) k) (if-true _ _ _ h)
          ∙ contains-insert_conflict k _ rest
          ∙ ground arith
      | inr h ↦ ap (λ cs. contains_text (conflict_keys cs) k) (if-false _ _ _ h) ∙ ground arith
    ]

-- The keys in conflict are those with writers of both families.
pub contains-mixed_environment_conflicts :
    (k : Text) (writers : Dict (List Writer))
    → IsDistinct writers
    → contains_text (conflict_keys (mixed_environment_conflicts writers)) k
      ≡ mixed (writers_of k writers)
unfolding mixed_environment_conflicts writers_of find contains_text has_sectioned
contains-mixed_environment_conflicts k [] h = refl
contains-mixed_environment_conflicts k ((key, ws) ∷ writers) (new, h) =
    contains-add_conflict k key ws (mixed_environment_conflicts writers)
    ∙ ap (λ b. (text_eq key k && mixed ws) || b) (contains-mixed_environment_conflicts k writers h)
    ∙ branches (text_eq key k) (λ e. ap (λ t. find t writers) (sym ((text_eq_iff key k).0 e)) ∙ new)
  where
    branches :
        (same : Bool)
        → (same ≡ true → find k writers ≡ none)
        → ((same && mixed ws) || mixed (elim (find k writers) [ none ↦ [] | some vs ↦ vs ]))
          ≡ mixed (elim (if same then some ws else find k writers) [ none ↦ [] | some vs ↦ vs ])
    branches false e = refl
    branches true e =
        ap (λ (o : Option (List Writer)). mixed ws || mixed (elim o [ none ↦ [] | some vs ↦ vs ]))
          (e refl)
        ∙ ground arith

has_sectioned-append :
    (ws vs : List Writer) → has_sectioned (ws ++ vs) ≡ (has_sectioned ws || has_sectioned vs)
unfolding has_sectioned
has_sectioned-append [] vs = refl
has_sectioned-append (w ∷ ws) vs = ground (arith, has_sectioned-append ws vs)

has_named-append : (ws vs : List Writer) → has_named (ws ++ vs) ≡ (has_named ws || has_named vs)
unfolding has_named
has_named-append [] vs = refl
has_named-append (w ∷ ws) vs = ground (arith, has_named-append ws vs)

writers_of-put :
    (j k : Text) (ws : List Writer) (d : Dict (List Writer))
    → writers_of k (put j ws d) ≡ (if text_eq j k then ws else writers_of k d)
unfolding writers_of
writers_of-put j k ws d = elim (Bool-cases (text_eq j k)) [
  | inl e ↦
      ap (λ i. writers_of i (put j ws d)) (sym ((text_eq_iff j k).0 e))
      ∙ ap (λ (o : Option (List Writer)). elim o [ none ↦ [] | some vs ↦ vs ]) (find-put j ws d)
      ∙ sym (if-true _ _ _ e)
  | inr e ↦
      ap (λ (o : Option (List Writer)). elim o [ none ↦ [] | some vs ↦ vs ])
        (find-put_other j k ws d e)
      ∙ sym (if-false _ _ _ e)
]

module _ (has : List Writer → Bool)
    (has-append : (ws vs : List Writer) → has (ws ++ vs) ≡ (has ws || has vs)) where
  -- One more writer of a key.
  has-put :
      (w : Writer) (j k : Text) (d : Dict (List Writer))
      → has (writers_of k (put j (writers_of j d ++ (w ∷ [])) d))
        ≡ (has (writers_of k d) || (has (w ∷ []) && text_eq j k))
  has-put w j k d =
      ap has (writers_of-put j k (writers_of j d ++ (w ∷ [])) d)
      ∙ branches (text_eq j k) (λ e. ap (λ i. writers_of i d) ((text_eq_iff j k).0 e))
    where
      branches :
          (same : Bool)
          → (same ≡ true → writers_of j d ≡ writers_of k d)
          → has (if same then writers_of j d ++ (w ∷ []) else writers_of k d)
            ≡ (has (writers_of k d) || (has (w ∷ []) && same))
      branches true e =
          has-append (writers_of j d) (w ∷ [])
          ∙ ap (λ ws. has ws || has (w ∷ [])) (e refl)
          ∙ ground arith
      branches false e = ground arith

  -- A layer writes its keys.
  has-add_writer :
      (w : Writer) (ks : List Text) (k : Text) (d : Dict (List Writer))
      → has (writers_of k (add_writer w ks d))
        ≡ (has (writers_of k d) || (has (w ∷ []) && contains_text ks k))
  unfolding add_writer contains_text
  has-add_writer w [] k d = ground arith
  has-add_writer w (j ∷ ks) k d =
      has-add_writer w ks k (put j (writers_of j d ++ (w ∷ [])) d) ∙ ground (arith, has-put w j k d)

pub has_sectioned-add_writer :
    (w : Writer) (ks : List Text) (k : Text) (d : Dict (List Writer))
    → has_sectioned (writers_of k (add_writer w ks d))
      ≡ (has_sectioned (writers_of k d) || (is_section w.family && contains_text ks k))
unfolding has_sectioned
has_sectioned-add_writer w ks k d =
    has-add_writer has_sectioned has_sectioned-append w ks k d ∙ ground arith

pub has_named-add_writer :
    (w : Writer) (ks : List Text) (k : Text) (d : Dict (List Writer))
    → has_named (writers_of k (add_writer w ks d))
      ≡ (has_named (writers_of k d) || (not (is_section w.family) && contains_text ks k))
unfolding has_named
has_named-add_writer w ks k d = has-add_writer has_named has_named-append w ks k d ∙ ground arith

pub add_writer-IsDistinct :
    (w : Writer) (ks : List Text) (d : Dict (List Writer))
    → IsDistinct d
    → IsDistinct (add_writer w ks d)
unfolding add_writer
add_writer-IsDistinct w [] d h = h
add_writer-IsDistinct w (k ∷ ks) d h = add_writer-IsDistinct w ks _ (put-IsDistinct k _ d h)
