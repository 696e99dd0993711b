-- ===== src/Nginx/Plan/Idle.antt =====
-- A synchronisation of servers that NGINX already has changes nothing.
use mlb_controller.Base.{
  Bool, false, not, ◌&&◌, ◌||◌, ◌≡◌, refl, sym, ap, ◌∙◌, inl, inr, List, [], ◌∷◌, Option, none,
  some, Str, ◌==◌, str_eq, str_beq_iff, int_eq, beq_ℤ_iff, ℤ, is_some, Bool-cases, Option-cases,
  arith,
}
use mlb_controller.Base.GoMap
use mlb_controller.Base.GoMap.{GoMap}
use mlb_controller.Domain.Model.{Backend}
use mlb_controller.Nginx.Address.{backend_key}
use mlb_controller.Nginx.Plan.{aggregate, find_same, needs_update, update_backends, remove_backends}
use mlb_controller.Nginx.Plan.Laws.{
  update_for, update_backends-lookup, remove_backends-lookup, find_same-weight, weight_of-is_some,
}
use mlb_controller.Nginx.Plan.Totals.{
  weight_of, weight_at, IsKeyed, aggregate-IsKeyed, aggregate-IsMap, lookup-IsKeyed,
}

weight_at-values :
    (k : Str) (m : GoMap Backend)
    → IsKeyed m
    → weight_at k (GoMap.values m) ≡ weight_of (GoMap.lookup k m)
unfolding GoMap.values GoMap.lookup
weight_at-values k [] h = refl
weight_at-values k ((j, b) ∷ m) h =
    rw (sym h.0)
      (elim (Bool-cases (j == k)) [ inl t ↦ rw t refl | inr f ↦ rw f (weight_at-values k m h.1) ])

self_lookup : (j : Str) (v : Backend) (m : GoMap Backend) → GoMap.lookup j ((j, v) ∷ m) ≡ some v
unfolding GoMap.lookup
self_lookup j v m = rw ((str_beq_iff j j).1 refl) refl

-- A map in which nothing is found has no entries.
nothing_found : (m : GoMap Backend) → ((k : Str) → GoMap.lookup k m ≡ none) → m ≡ []
nothing_found [] h = refl
nothing_found ((j, v) ∷ m) h = absurd (impossible (sym (self_lookup j v m) ∙ h j))
  where
    impossible : ◌≡◌ {A = Option Backend} (some v) none → ⊥
    impossible q = cc

not_needed :
    (db : Backend) (o : Option Backend) → weight_of o ≡ some db.weight → needs_update db o ≡ false
not_needed db none h = absurd cc
not_needed db (some cb) h = ground (arith, beq_ℤ_iff cb.weight db.weight, weights h)
  where
    weights : {v w : ℤ} → some v ≡ some w → v ≡ w
    weights q = cc

-- Once NGINX has exactly the aggregated servers of an upstream, `SyncUpstream` finds nothing to add
-- and nothing to remove.
pub sync-idle :
    (backends : List Backend)
    → (update_backends (GoMap.values (aggregate backends [])) (aggregate backends []) ≡ [])
      × (remove_backends (aggregate backends []) (GoMap.values (aggregate backends [])) [] ≡ [])
sync-idle backends = (nothing_found _ updates, nothing_found _ removes)
  where
    desired : GoMap Backend
    desired = aggregate backends []

    current : List Backend
    current = GoMap.values desired

    keyed : IsKeyed desired
    keyed = aggregate-IsKeyed backends [] tt

    updates : (k : Str) → GoMap.lookup k (update_backends current desired) ≡ none
    updates k =
        update_backends-lookup k current desired (aggregate-IsMap backends [] tt)
        ∙ elim (Option-cases (GoMap.lookup k desired)) [
          | inl n ↦ ap (update_for current) n
          | inr (db, s) ↦
              ap (update_for current) s
              ∙ rw
                  (not_needed db (find_same db current) (
                    find_same-weight db current
                    ∙ weight_at-values (backend_key db) desired keyed
                    ∙ ap (λ j. weight_of (GoMap.lookup j desired))
                        (lookup-IsKeyed k desired db keyed s)
                    ∙ ap weight_of s))
                  refl
        ]

    gone : (o : Option Backend) → is_some o ≡ false → o ≡ none
    gone none h = refl
    gone (some b) h = absurd cc

    removes : (k : Str) → GoMap.lookup k (remove_backends desired current []) ≡ none
    removes k = gone _ (
        remove_backends-lookup k desired current []
        ∙ rw (weight_at-values k desired keyed) (
            rw (weight_of-is_some (GoMap.lookup k desired))
              (unfold GoMap.lookup in clash (is_some (GoMap.lookup k desired)))))
      where
        clash : (b : Bool) → false || (not b && b) ≡ false
        clash b = ground arith
