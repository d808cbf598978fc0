-- ===== src/Load/Settled.antt =====
-- What a turn that reads its source leaves in the cache.
use confii_go.Base.{Bool, true, false, Option, none, some, List, [], ◌≡◌, refl, ap, sym, ◌∙◌, ◌||◌}
use confii_go.Base.{Text, if◌then◌else◌}
use confii_go.Value.{Fields}
use confii_go.Compose.{Outcome, done, failed, compose_with_dependencies}
use confii_go.Load.Turns.{
  ErrorPolicy, raise, warn, ignore, unknown_policy, Fetched, fetch_failed, no_data, fetched,
  LoadError, Warning, Cache, Slot, Turn, contributes, passes, stops, canceled, no_cache, caching,
  composition_failed, loader_failed, fetch_turn, compose_turn, cached_turn, copy_map, on_error,
  is_cancellation,
}

-- What a turn that reads its source leaves in the cache.
abbrev pub Settled : Turn → Type 0
Settled (contributes layer cache) = cache.layer ≡ some (copy_map layer)
Settled (passes cache) = cache ≡ no_cache
Settled (stops e) = Unit

-- The copy of a layer is the layer: no map in it is nil.
abbrev pub IsMadeTurn : Turn → Type 0
IsMadeTurn (contributes layer cache) = copy_map layer ≡ layer
IsMadeTurn (passes cache) = Unit
IsMadeTurn (stops e) = Unit

abbrev pub IsMade : ErrorPolicy → Slot → Type 0
IsMade policy s = IsMadeTurn (fetch_turn policy s).0

on_error-Settled :
    (policy : ErrorPolicy) (source : Text) (e : LoadError) (t : Turn)
    → Settled t
    → Settled (on_error policy source e t).0
unfolding on_error
on_error-Settled raise source e t h = tt
on_error-Settled warn source e t h = h
on_error-Settled ignore source e t h = h
on_error-Settled unknown_policy source e t h = tt

or_canceled-Settled :
    (b : Bool) (x : Turn × List Warning)
    → Settled x.0
    → Settled ((λ (y : Turn × List Warning). y.0) (if b then (stops canceled, []) else x))
or_canceled-Settled true x h = tt
or_canceled-Settled false x h = h

compose_turn-Settled :
    (policy : ErrorPolicy) (s : Slot) (d : Fields) → Settled (compose_turn policy s d).0
unfolding compose_turn
compose_turn-Settled policy s d =
    branches (compose_with_dependencies s.surroundings d s.loader.source)
  where
    branches :
        (r : Outcome Fields × List Text)
        → Settled (
            (λ (y : Turn × List Warning). y.0)
              (elim r.0 [
                | done composed ↦ (caching composed r.1, [])
                | failed e ↦
                    if s.ended_after || is_cancellation e
                    then (stops canceled, [])
                    else on_error policy s.loader.source (composition_failed e) (caching d [])
              ]))
    branches (done composed, dependencies) = refl
    branches (failed e, dependencies) = or_canceled-Settled _ _ (on_error-Settled policy _ _ _ refl)

pub fetch_turn-Settled : (policy : ErrorPolicy) (s : Slot) → Settled (fetch_turn policy s).0
unfolding fetch_turn
fetch_turn-Settled policy s = branches s.data_read
  where
    branches :
        (d : Fetched)
        → Settled (
            (λ (y : Turn × List Warning). y.0)
              (elim d [
                | fetch_failed is_context_error message ↦
                    if s.ended_after || is_context_error
                    then (stops canceled, [])
                    else on_error policy s.loader.source (loader_failed message) (passes no_cache)
                | no_data ↦ (passes no_cache, [])
                | fetched d ↦ compose_turn policy s d
              ]))
    branches (fetch_failed b message) = or_canceled-Settled _ _ (on_error-Settled policy _ _ _ refl)
    branches no_data = refl
    branches (fetched d) = compose_turn-Settled policy s d

pub cached_turn-passes :
    (s : Slot) (c : Cache) → c ≡ no_cache → cached_turn (record s { cache = c }) ≡ passes c
unfolding cached_turn
cached_turn-passes s c e =
    ap (λ (d : Cache). cached_turn (record s { cache = d })) e ∙ ap passes (sym e)

pub cached_turn-contributes :
    (s : Slot) (c : Cache) (layer : Fields)
    → c.layer ≡ some (copy_map layer)
    → copy_map layer ≡ layer
    → cached_turn (record s { cache = c }) ≡ contributes layer c
unfolding cached_turn
cached_turn-contributes s c layer kept copied =
    ap (λ (o : Option Fields). elim o [ none ↦ passes c | some m ↦ contributes (copy_map m) c ])
      kept
    ∙ ap (λ m. contributes m c) (ap copy_map copied ∙ copied)
