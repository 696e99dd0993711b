-- ===== src/Controller/Sync/SafetyNet.antt =====
-- The safety net of `syncUpstreamsForService`.
use mlb_controller.Base.{
  true, ◌≡◌, refl, ap, ◌∙◌, List, [], ◌∷◌, Option, some, Str, All, All-append, arith, Bool, not,
  ◌||◌, is_empty,
}
use mlb_controller.Domain.Config.{LoadBalancerConfig}
use mlb_controller.Domain.Model.{Service, Pod, Backend, Upstream}
use mlb_controller.Controller.Env.{
  Env, Controller, Effect, sync_upstream, Result, ok, err, pods_failed, build_failed, emit, lb_name,
  get_load_balancer_config,
}
use mlb_controller.Controller.Build.{build_upstream}
use mlb_controller.Controller.Build.Laws.{build_upstream-load_balancer}
use mlb_controller.Controller.Fallback.{push, resolve, fallback, allow_empty}
use mlb_controller.Controller.Sync.{
  put_upstream, wrap, and_then, service_upstream, sync_upstreams_for_service,
}
use mlb_controller.Controller.Sync.Invariants.{Respects, sync_upstreams_for_service-Keeps}

-- An upstream without backends goes out only where empty upstreams are allowed.
abbrev pub MayPush : Env → Upstream → Type 0
MayPush env up =
    not (is_empty up.backends) || allow_empty env (get_load_balancer_config env up.load_balancer)
    ≡ true

allowed_if_empty :
    (bs : List Backend) (allowed : Bool)
    → (bs ≡ [] → allowed ≡ true)
    → not (is_empty bs) || allowed ≡ true
allowed_if_empty [] allowed h = h refl
allowed_if_empty (b ∷ bs) allowed h = refl

abbrev pub IsSafe : Env → Effect → Type 0
IsSafe env (sync_upstream lb up) = MayPush env up
IsSafe env _ = Unit

abbrev pub AreSafe : Env → Controller → Type 0
AreSafe env c = All (IsSafe env) c.effects

pub emit-AreSafe :
    (env : Env) (e : Effect) (c : Controller)
    → IsSafe env e
    → AreSafe env c
    → AreSafe env (emit e c).1
unfolding emit
emit-AreSafe env e c s h = All-append (IsSafe env) c.effects (e ∷ []) h (s, tt)

stored-AreSafe :
    (env : Env) (key : Str) (up : Upstream) (c : Controller)
    → AreSafe env c
    → AreSafe env (put_upstream key up c).1
unfolding put_upstream
stored-AreSafe env key up c h = h

pub AreSafe-Respects : (env : Env) → Respects (AreSafe env) (MayPush env)
AreSafe-Respects env = record {
  errors = λ name c h. emit-AreSafe env _ c tt h;
  duration = λ name c h. emit-AreSafe env _ c tt h;
  total = λ name bs c h. emit-AreSafe env _ c tt h;
  stored = stored-AreSafe env;
  pushed = λ up c q h. emit-AreSafe env _ c q h;
}

-- The fallback lets an empty upstream through only where that is allowed.
pub resolve-empty :
    (env : Env) (lb : Option LoadBalancerConfig) (bs cs : List Backend)
    → resolve env lb bs ≡ push cs
    → cs ≡ []
    → allow_empty env lb ≡ true
unfolding resolve fallback
resolve-empty env lb [] cs h e = ground arith
resolve-empty env lb (b ∷ bs) cs h e = ground arith

pub service_upstream-load_balancer :
    (env : Env) (svc : Service) (up : Upstream)
    → service_upstream env svc ≡ ok (some up)
    → up.load_balancer ≡ lb_name svc
unfolding service_upstream
service_upstream-load_balancer env svc up h =
    wrapped (env.k8s_client.get_pods_for_selector svc.namespace svc.selector) h
  where
    built :
        (pods : List Pod) (r : Result (Option Upstream))
        → build_upstream env svc pods ≡ r
        → wrap (build_failed svc.namespace svc.name) r ≡ ok (some up)
        → up.load_balancer ≡ lb_name svc
    built pods (ok o) e q = build_upstream-load_balancer env svc pods up (e ∙ q)
    built pods (err d) e q = cc

    wrapped :
        (r : Result (List Pod))
        → and_then
            (wrap (pods_failed svc.namespace svc.name) r)
            (λ pods. wrap (build_failed svc.namespace svc.name) (build_upstream env svc pods))
          ≡ ok (some up)
        → up.load_balancer ≡ lb_name svc
    wrapped (ok pods) q = built pods (build_upstream env svc pods) refl q
    wrapped (err d) q = cc

pub pushes-MayPush :
    (env : Env) (svc : Service) (up : Upstream)
    → service_upstream env svc ≡ ok (some up)
    → (bs cs : List Backend) → resolve env (get_load_balancer_config env (lb_name svc)) bs ≡ push cs
    → MayPush env (record up { backends = cs })
pushes-MayPush env svc up e bs cs r =
    allowed_if_empty cs (allow_empty env (get_load_balancer_config env up.load_balancer)) λ empty.
      ap (λ lb. allow_empty env (get_load_balancer_config env lb))
        (service_upstream-load_balancer env svc up e)
      ∙ resolve-empty env (get_load_balancer_config env (lb_name svc)) bs cs r empty

-- Whatever the pods, the other services, the errors and the answers of the load balancer are,
-- `syncUpstreamsForService` sends an upstream without backends only to a load balancer for which
-- `allow_empty_upstream` is set, its own or the global one.
pub sync_upstreams_for_service-AreSafe :
    (env : Env) (svc : Service) (c : Controller)
    → AreSafe env c
    → AreSafe env (sync_upstreams_for_service env svc c).1
sync_upstreams_for_service-AreSafe env svc c h =
    (sync_upstreams_for_service-Keeps (AreSafe env) (MayPush env) (AreSafe-Respects env) env svc
        (pushes-MayPush env svc)).at
      c h
