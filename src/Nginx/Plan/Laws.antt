-- ===== src/Nginx/Plan/Laws.antt =====
-- The additions and removals of `SyncUpstream` lead exactly to the desired servers.
use mlb_controller.Base.{
  Bool, true, false, not, ◌&&◌, ◌||◌, ◌≡◌, refl, sym, ap, ◌∙◌, inl, inr, List, [], ◌∷◌, Option,
  none, some, Str, ◌==◌, str_eq, str_beq_iff, int_eq, beq_ℤ_iff, if◌then◌else◌, ℤ, is_some,
  Bool-cases, Option-cases, arith,
}
use mlb_controller.Base.GoMap
use mlb_controller.Base.GoMap.{GoMap}
use mlb_controller.Domain.Model.{Backend}
use mlb_controller.Nginx.Address.{backend_key, backend_key-same_backend}
use mlb_controller.Nginx.Plan.{aggregate, find_same, needs_update, update_backends, remove_backends}
use mlb_controller.Nginx.Plan.Totals.{weight_of, weight_at, wanted}
use mlb_controller.Nginx.Plan.Totals.{
  IsKeyed, lookup-IsKeyed, aggregate-IsKeyed, aggregate-IsMap, aggregate-weight,
}

abbrev pub after_removal : Option Backend → Option ℤ → Option ℤ
after_removal none w = w
after_removal (some b) w = none

abbrev pub after_update : Option Backend → Option ℤ → Option ℤ
after_update none w = w
after_update (some b) w = some b.weight

-- The weight of a key once the updates are added and the removals removed.
abbrev pub outcome : Str → List Backend → GoMap Backend → Option ℤ
outcome k current desired =
    after_update (GoMap.lookup k (update_backends current desired))
      (after_removal (GoMap.lookup k (remove_backends desired current [])) (weight_at k current))

abbrev pub update_for : List Backend → Option Backend → Option Backend
update_for current none = none
update_for current (some db) = if needs_update db (find_same db current) then some db else none

pub update_backends-lookup :
    (k : Str) (current : List Backend) (m : GoMap Backend)
    → GoMap.IsMap m
    → GoMap.lookup k (update_backends current m) ≡ update_for current (GoMap.lookup k m)
unfolding update_backends GoMap.lookup
update_backends-lookup k current [] h = refl
update_backends-lookup k current ((j, db) ∷ m) h = elim (Bool-cases (j == k)) [
  | inl t ↦ elim (Bool-cases (needs_update db (find_same db current))) [
    | inl n ↦ rw (n, t, n) refl
    | inr n ↦
        rw (n, t, n)
          (update_backends-lookup k current m h.1
            ∙ ap (update_for current)
                (ap (λ i. GoMap.lookup i m) (sym ((str_beq_iff j k).0 t)) ∙ h.0))
  ]
  | inr f ↦ elim (Bool-cases (needs_update db (find_same db current))) [
    | inl n ↦ rw (n, f) (update_backends-lookup k current m h.1)
    | inr n ↦ rw (n, f) (update_backends-lookup k current m h.1)
  ]
]

removing :
    (k : Str) (cb : Backend) (m : GoMap Backend) (b : Bool)
    → is_some (GoMap.lookup k (if not b then GoMap.insert (backend_key cb) cb m else m))
      ≡ is_some (GoMap.lookup k m) || (not b && backend_key cb == k)
removing k cb m true = ground arith
removing k cb m false =
    ap is_some (GoMap.lookup-insert (backend_key cb) k cb m)
    ∙ elim (Bool-cases (backend_key cb == k)) [
      | inl t ↦ rw t (ground arith)
      | inr f ↦ rw f (ground arith)
    ]

pub remove_backends-lookup :
    (k : Str) (desired : GoMap Backend) (cbs : List Backend) (m : GoMap Backend)
    → is_some (GoMap.lookup k (remove_backends desired cbs m))
      ≡ is_some (GoMap.lookup k m)
        || (not (is_some (GoMap.lookup k desired)) && is_some (weight_at k cbs))
unfolding remove_backends
remove_backends-lookup k desired [] m = ground arith
remove_backends-lookup k desired (cb ∷ cbs) m =
    remove_backends-lookup k desired cbs _
    ∙ ap (λ b. b || (not (is_some (GoMap.lookup k desired)) && is_some (weight_at k cbs)))
        (removing k cb m (is_some (GoMap.lookup (backend_key cb) desired)))
    ∙ elim (Bool-cases (backend_key cb == k)) [
      | inl t ↦ rw t (
          ground (
            arith,
            ap (λ j. is_some (GoMap.lookup j desired)) ((str_beq_iff (backend_key cb) k).0 t),
          ))
      | inr f ↦ rw f (ground arith)
    ]

pub find_same-weight :
    (db : Backend) (current : List Backend)
    → weight_of (find_same db current) ≡ weight_at (backend_key db) current
unfolding find_same
find_same-weight db [] = refl
find_same-weight db (cb ∷ cbs) = ground (
  arith,
  backend_key-same_backend db cb,
  str_beq_iff (backend_key cb) (backend_key db),
  find_same-weight db cbs,
)

needs_update-weight :
    (db : Backend) (o : Option Backend) → (needs_update db o ≡ false) → weight_of o ≡ some db.weight
needs_update-weight db none h = absurd cc
needs_update-weight db (some cb) h = ground (arith, beq_ℤ_iff cb.weight db.weight)

removed_weight :
    (o : Option Backend) (d w : Option ℤ)
    → is_some o ≡ not (is_some d) && is_some w
    → d ≡ none
    → after_removal o w ≡ none
removed_weight none d none h q = refl
removed_weight none d (some w) h q = absurd (ground (arith, ap is_some q))
removed_weight (some b) d w h q = refl

kept_weight : (o : Option Backend) (w : Option ℤ) → is_some o ≡ false → after_removal o w ≡ w
kept_weight none w h = refl
kept_weight (some b) w h = absurd cc

pub weight_of-is_some : (o : Option Backend) → is_some (weight_of o) ≡ is_some o
weight_of-is_some none = refl
weight_of-is_some (some b) = refl

outcome-desired :
    (k : Str) (current : List Backend) (desired : GoMap Backend)
    → IsKeyed desired
    → GoMap.IsMap desired
    → outcome k current desired ≡ weight_of (GoMap.lookup k desired)
outcome-desired k current desired keyed map = elim (Option-cases (GoMap.lookup k desired)) [
  | inl n ↦
      ap (λ u. after_update u (after_removal removal (weight_at k current)))
        (update ∙ ap (update_for current) n)
      ∙ removed_weight removal (weight_of (GoMap.lookup k desired)) (weight_at k current)
          (removes
            ∙ ap (λ b. not b && is_some (weight_at k current))
                (sym (weight_of-is_some (GoMap.lookup k desired))))
          (ap weight_of n)
      ∙ ap weight_of (sym n)
  | inr (db, s) ↦
      ap (λ u. after_update u (after_removal removal (weight_at k current)))
        (update ∙ ap (update_for current) s)
      ∙ elim (Bool-cases (needs_update db (find_same db current))) [
        | inl t ↦ rw t refl
        | inr f ↦ rw f (
            kept_weight removal (weight_at k current) (removes ∙ rw s refl)
            ∙ ap (λ j. weight_at j current) (sym (lookup-IsKeyed k desired db keyed s))
            ∙ sym (find_same-weight db current)
            ∙ needs_update-weight db (find_same db current) f)
      ]
      ∙ ap weight_of (sym s)
]
  where
    removal : Option Backend
    removal = GoMap.lookup k (remove_backends desired current [])

    update :
        GoMap.lookup k (update_backends current desired)
        ≡ update_for current (GoMap.lookup k desired)
    update = update_backends-lookup k current desired map

    removes :
        is_some removal ≡ not (is_some (GoMap.lookup k desired)) && is_some (weight_at k current)
    removes = unfold GoMap.lookup in remove_backends-lookup k desired current []

-- Whatever servers NGINX has for an upstream, once `SyncUpstream` has made its additions and removals
-- each key `ip:port` has exactly the weight that the controller wants for it: the total over the
-- backends at this key, each counting at least 1, and no server where no backend has the key.
pub plan-reaches :
    (k : Str) (current backends : List Backend)
    → outcome k current (aggregate backends []) ≡ wanted k backends
plan-reaches k current backends =
    outcome-desired k current (aggregate backends []) (aggregate-IsKeyed backends [] tt)
      (aggregate-IsMap backends [] tt)
    ∙ aggregate-weight k backends []
    ∙ unfold GoMap.lookup in refl
