-- ===== src/Controller/Reconcile/SafetyNet.antt =====
-- The safety net of `syncSingleLoadBalancer`.
use mlb_controller.Base.{[], ◌∷◌, str_eq, All, All-append}
use mlb_controller.Controller.Env.{Env, Controller, Effect, sync_all_upstreams, emit}
use mlb_controller.Controller.Reconcile.{sync_upstreams}
use mlb_controller.Controller.Reconcile.Effects.{refresh-Holds, commit-Holds}
use mlb_controller.Controller.Reconcile.Invariants.{RespectsAll, sync_upstreams-Keeps}
use mlb_controller.Controller.Reconcile.Replacing.{MayReplaceAll, apply_fallbacks-safe}

abbrev pub IsSafe : Env → Effect → Type 0
IsSafe env (sync_all_upstreams lb m) = MayReplaceAll env lb m
IsSafe env _ = Unit

abbrev pub AreSafe : Env → Controller → Type 0
AreSafe env c = All (IsSafe env) c.effects

emit-AreSafe :
    (env : Env) (e : Effect) (c : Controller)
    → IsSafe env e
    → AreSafe env c
    → AreSafe env (emit e c).1
unfolding emit
emit-AreSafe env e c s h = All-append (IsSafe env) c.effects (e ∷ []) h (s, tt)

AreSafe-RespectsAll : (env : Env) → RespectsAll (AreSafe env) (MayReplaceAll env)
AreSafe-RespectsAll env = record {
  refreshed = λ lb svcs c h. (refresh-Holds (IsSafe env) (λ name n. tt) lb svcs).at c h;
  committed = λ lb desired c q h. (commit-Holds (IsSafe env) (λ name n. tt) lb desired).at c h;
  errors = λ lb c h. emit-AreSafe env _ c tt h;
  sent = λ lb desired c q h. emit-AreSafe env _ c q h;
  counter = λ c h. emit-AreSafe env _ c tt h;
  duration = λ name c h. emit-AreSafe env _ c tt h;
}

-- Whatever the services, the errors and the answers of the load balancers are, the periodic
-- reconciliation of all load balancers hands each of them, for an upstream that is not marked as
-- preserved, an empty list of backends only if `allow_empty_upstream` is set, for that load balancer
-- or globally.
pub sync_upstreams-AreSafe :
    (env : Env) (c : Controller) → AreSafe env c → AreSafe env (sync_upstreams env c).1
sync_upstreams-AreSafe env c h =
    (sync_upstreams-Keeps (AreSafe env) (MayReplaceAll env) (AreSafe-RespectsAll env) env
        λ lb svcs d k. apply_fallbacks-safe env lb d.state.upstreams _).at
      c h
