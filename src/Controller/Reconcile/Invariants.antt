-- ===== src/Controller/Reconcile/Invariants.antt =====
-- What the reconciliation keeps, whatever it returns: a rule for invariants that its steps respect.
use mlb_controller.Base.{not, List, [], ◌∷◌, ◌++◌, Option, none, some, Str, codes}
use mlb_controller.Base.GoMap.{GoMap}
use mlb_controller.Domain.Model.{Service, Upstream}
use mlb_controller.Controller.Env.{
  Env, Controller, LoadBalancerAdapter, Result, ok, err, Error, list_failed, reconcile_failed,
  sync_all_upstreams, increment_sync_errors, sync_upstreams_inc, observe_sync_duration, emit,
  has_synced, get_load_balancer_config,
}
use mlb_controller.Controller.Env.Keeps.{Keeps, Keeps-pure, Keeps-raise, Keeps-bind, Keeps-if}
use mlb_controller.Controller.Reconcile.Desired.{desired_upstreams, apply_fallbacks}
use mlb_controller.Controller.Reconcile.{
  refresh_services, commit_upstreams, call_adapter, push_all, with_desired, with_services,
  sync_single_load_balancer, sync_upstreams, sync_each, finish,
}

-- The steps that respect `P`; `Q` tells which upstreams a load balancer may be given.
pub record RespectsAll (P : Controller → Type 0) (Q : Str → GoMap Upstream → Type 0) : Type 0 where
  pub refreshed :
      (lb : Str) (svcs : List Service) (c : Controller) → P c → P (refresh_services lb svcs c).1
  pub committed :
      (lb : Str) (desired : GoMap Upstream) (c : Controller)
      → Q lb desired
      → P c
      → P (commit_upstreams lb desired c).1
  pub sent :
      (lb : Str) (desired : GoMap Upstream) (c : Controller)
      → Q lb desired
      → P c
      → P (emit (sync_all_upstreams lb desired) c).1
  pub errors : (name : Str) (c : Controller) → P c → P (emit (increment_sync_errors name) c).1
  pub counter : (c : Controller) → P c → P (emit sync_upstreams_inc c).1
  pub duration : (name : Str) (c : Controller) → P c → P (emit (observe_sync_duration name) c).1

-- The upstreams that the reconciliation wants, from the listed services.
abbrev pub desired_of : Env → Str → List Service → Controller → GoMap Upstream
desired_of env lb services c =
    apply_fallbacks env lb (get_load_balancer_config env lb) c.state.upstreams
      (desired_upstreams env lb c.state.upstreams services [])

module _ (P : Controller → Type 0) (Q : Str → GoMap Upstream → Type 0) (r : RespectsAll P Q)
    (env : Env)
    (wanted : (lb : Str) (services : List Service) (c : Controller)
      → P c
      → Q lb (desired_of env lb services c)) where
  call_adapter-Keeps : (lb : Str) (a : Result (Unit {0})) → Keeps P (call_adapter lb a)
  unfolding call_adapter
  call_adapter-Keeps lb (ok u) = Keeps-pure P tt
  call_adapter-Keeps lb (err e) =
      Keeps-bind P _ _ (record { at = r.errors lb }) λ _. Keeps-raise P (reconcile_failed lb e)

  push_all-Keeps :
      (lb : Str) (adapter : LoadBalancerAdapter) (desired : GoMap Upstream)
      → Q lb desired
      → Keeps P (push_all lb adapter desired)
  unfolding push_all
  push_all-Keeps lb adapter desired q =
      Keeps-bind P _ _ (record { at = λ c h. r.sent lb desired c q h })
        λ _. Keeps-bind P _ _ (call_adapter-Keeps lb (adapter.sync_all_upstreams desired)) λ _.
          Keeps-bind P _ _ (record { at = r.counter })
            λ _. record { at = r.duration (codes "reconciliation_" ++ lb) }

  with_services-Keeps :
      (lb : Str) (adapter : LoadBalancerAdapter) (l : Result (List Service))
      → Keeps P (with_services env lb adapter l)
  unfolding with_services with_desired
  with_services-Keeps lb adapter (err e) = Keeps-raise P (list_failed lb e)
  with_services-Keeps lb adapter (ok services) =
      Keeps-bind P _ _ (record { at = r.refreshed lb services })
        λ _. record {
          at = λ c h.
              let q = wanted lb services c h in
              (Keeps-bind P (commit_upstreams lb (desired_of env lb services c)) _
                  (record { at = λ d k. r.committed lb (desired_of env lb services c) d q k })
                  λ _. push_all-Keeps lb adapter (desired_of env lb services c) q).at
                c h;
        }

  pub sync_single-Keeps :
      (lb : Str) (adapter : LoadBalancerAdapter)
      → Keeps P (sync_single_load_balancer env lb adapter)
  unfolding sync_single_load_balancer
  sync_single-Keeps lb adapter =
      Keeps-if P (not (has_synced env)) _ _ (Keeps-pure P tt)
        (with_services-Keeps lb adapter env.k8s_client.list_services)

  sync_each-Keeps :
      (m : GoMap LoadBalancerAdapter) (errs : Option Error) (c : Controller)
      → P c
      → P (sync_each env m errs c).1
  unfolding sync_each
  sync_each-Keeps [] errs c h = h
  sync_each-Keeps ((name, adapter) ∷ m) errs c h =
      sync_each-Keeps m _ _ ((sync_single-Keeps name adapter).at c h)

  finish-Keeps : (a : Option Error × Controller) → P a.1 → P (finish a).1
  unfolding finish
  finish-Keeps (none, c) h = h
  finish-Keeps (some e, c) h = h

  pub sync_upstreams-Keeps : Keeps P (sync_upstreams env)
  unfolding sync_upstreams
  sync_upstreams-Keeps = record {
    at = λ c h.
        finish-Keeps (sync_each env env.load_balancers none c)
          (sync_each-Keeps env.load_balancers none c h);
  }
