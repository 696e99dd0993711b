-- ===== src/Controller/Reconcile/FailStatic.antt =====
-- Fail-static handling in `syncSingleLoadBalancer`: a service whose upstream cannot be computed.
use mlb_controller.Base.{
  Bool, true, false, ◌≡◌, refl, ap, ◌∙◌, List, [], ◌∷◌, ◌++◌, Option, none, some, Str, ◌==◌, str_eq,
  str_beq_iff, arith, if◌then◌else◌, Bool-cases, inl, inr,
}
use mathlib.Core.Option
use mlb_controller.Base.GoMap
use mlb_controller.Base.GoMap.{GoMap}
use mlb_controller.Domain.Config.{LoadBalancerConfig}
use mlb_controller.Domain.Model.{Service, Upstream}
use mlb_controller.Controller.Env.{
  Env, Result, ok, err, Error, upstream_name, get_load_balancer_config,
}
use mlb_controller.Controller.Sync.{service_upstream}
use mlb_controller.Controller.Reconcile.Desired.{
  preserved, join_upstream, add_service, is_target, desired_upstreams, apply_fallback,
  apply_fallbacks,
}

-- The map tells the adapter to leave the upstream alone.
abbrev pub Spares : Str → GoMap Upstream → Type 0
Spares name m =
    (up : Upstream) × (GoMap.lookup name m ≡ some up) × (up.preserve_existing_backends ≡ true)

insert-Spares :
    (name k : Str) (v : Upstream) (m : GoMap Upstream)
    → (k ≡ name → v.preserve_existing_backends ≡ true)
    → Spares name m
    → Spares name (GoMap.insert k v m)
insert-Spares name k v m new (up, found, p) = elim (Bool-cases (k == name)) [
  | inl t ↦ (v, GoMap.lookup-insert k name v m ∙ rw t refl, new ((str_beq_iff k name).0 t))
  | inr f ↦ (up, GoMap.lookup-insert k name v m ∙ rw f found, p)
]

joined :
    (name k : Str) (up old : Upstream) (m : GoMap Upstream)
    → GoMap.lookup name m ≡ some old
    → old.preserve_existing_backends ≡ true
    → k ≡ name
    → (join_upstream (GoMap.lookup k m) up).preserve_existing_backends ≡ true
unfolding join_upstream
joined name k up old m found p e = rw e (rw found (ground (arith, p)))

-- No later service of the same upstream takes the mark away.
add_service-Spares :
    (lb name : Str) (known : GoMap Upstream) (svc : Service) (r : Result (Option Upstream))
    (m : GoMap Upstream)
    → Spares name m
    → Spares name (add_service lb known svc r m)
unfolding add_service preserved
add_service-Spares lb name known svc (err e) m h =
    insert-Spares name (upstream_name svc) (preserved lb (upstream_name svc) known) m (λ _. refl) h
add_service-Spares lb name known svc (ok none) m h = h
add_service-Spares lb name known svc (ok (some up)) m (old, found, p) =
    insert-Spares name up.name (join_upstream (GoMap.lookup up.name m) up) m
      (joined name up.name up old m found p) (old, found, p)

desired_upstreams-Spares :
    (env : Env) (lb name : Str) (known : GoMap Upstream) (svcs : List Service) (m : GoMap Upstream)
    → Spares name m
    → Spares name (desired_upstreams env lb known svcs m)
unfolding desired_upstreams
desired_upstreams-Spares env lb name known [] m h = h
desired_upstreams-Spares env lb name known (svc ∷ svcs) m h =
    desired_upstreams-Spares env lb name known svcs _ (go (is_target lb svc))
  where
    go :
        (b : Bool)
        → Spares name (if b then add_service lb known svc (service_upstream env svc) m else m)
    go true = add_service-Spares lb name known svc (service_upstream env svc) m h
    go false = h

failed-Spares :
    (lb : Str) (known : GoMap Upstream) (svc : Service) (r : Result (Option Upstream)) (e : Error)
    (m : GoMap Upstream)
    → r ≡ err e
    → Spares (upstream_name svc) (add_service lb known svc r m)
unfolding add_service preserved
failed-Spares lb known svc r e m q = rw q (
  preserved lb (upstream_name svc) known,
  GoMap.lookup-insert (upstream_name svc) (upstream_name svc)
        (preserved lb (upstream_name svc) known) m
      ∙ rw ((str_beq_iff (upstream_name svc) (upstream_name svc)).1 refl),
  refl,
)

desired_upstreams-failed :
    (env : Env) (lb : Str) (known : GoMap Upstream) (before : List Service) (svc : Service)
    (after : List Service) (e : Error) (m : GoMap Upstream)
    → is_target lb svc ≡ true
    → service_upstream env svc ≡ err e
    → Spares (upstream_name svc) (desired_upstreams env lb known (before ++ svc ∷ after) m)
unfolding desired_upstreams
desired_upstreams-failed env lb known [] svc after e m t q =
    rw (desired_upstreams, t)
      (desired_upstreams-Spares env lb (upstream_name svc) known after _
        (failed-Spares lb known svc (service_upstream env svc) e m q))
desired_upstreams-failed env lb known (b ∷ before) svc after e m t q =
    desired_upstreams-failed env lb known before svc after e _ t q

pub apply_fallbacks-lookup :
    (env : Env) (lb : Str) (config : Option LoadBalancerConfig) (known m : GoMap Upstream)
    (name : Str)
    → GoMap.lookup name (apply_fallbacks env lb config known m)
      ≡ Option.map (apply_fallback env lb config known name) (GoMap.lookup name m)
unfolding apply_fallbacks GoMap.lookup
apply_fallbacks-lookup env lb config known [] name = refl
apply_fallbacks-lookup env lb config known ((k, up) ∷ m) name = elim (Bool-cases (k == name)) [
  | inl t ↦
      rw t (ap (λ k. some (apply_fallback env lb config known k up)) ((str_beq_iff k name).0 t))
  | inr f ↦ rw f (apply_fallbacks-lookup env lb config known m name)
]

-- A service of the load balancer whose upstream cannot be computed, wherever it stands in the list
-- of services, makes the reconciliation leave its upstream alone: the map that goes to the load
-- balancer marks it as preserved, whatever the services before and after it contribute.
pub failed_service-preserved :
    (env : Env) (lb : Str) (known : GoMap Upstream) (before : List Service) (svc : Service)
    (after : List Service) (e : Error)
    → is_target lb svc ≡ true
    → service_upstream env svc ≡ err e
    → Spares (upstream_name svc) (
        apply_fallbacks env lb
          (get_load_balancer_config env lb)
          known
          (desired_upstreams env lb known (before ++ svc ∷ after) []))
unfolding apply_fallback
failed_service-preserved env lb known before svc after e t q =
    let (up, found, p) = desired_upstreams-failed env lb known before svc after e [] t q in
    (
      up,
      apply_fallbacks-lookup env lb (get_load_balancer_config env lb) known
            (desired_upstreams env lb known (before ++ svc ∷ after) []) (upstream_name svc)
          ∙ rw found (rw p refl),
      p,
    )
