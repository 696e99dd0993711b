-- ===== src/Controller/Sync.antt =====
-- `syncUpstreamsForService` and `syncLoadBalancerUpstream` of internal/controller/controller.go.
pub mod Invariants
pub mod SafetyNet
use mlb_controller.Base.{
  Bool, true, false, not, ◌&&◌, ◌||◌, List, [], ◌∷◌, Option, none, some, Str, ◌==◌, str_eq, length,
  if◌then◌else◌,
}
use mlb_controller.Base.GoMap
use mlb_controller.Domain.Model.{Service, Pod, Backend, Upstream}
use mlb_controller.Controller.Env.{
  Env, Controller, LoadBalancerAdapter, Action, Result, ok, err, Error, pods_failed, build_failed,
  list_failed, adapter_not_found, sync_failed, sync_upstream, increment_sync_errors,
  update_backends_total, observe_sync_duration, ◌>>=◌, ◌>>◌, pure, raise, emit, lb_name,
  upstream_name, slash, get_load_balancer_config,
}
use mlb_controller.Controller.Merge.{merge_backends}
use mlb_controller.Controller.Build.{build_upstream}
use mlb_controller.Controller.Fallback.{Fallback, push, preserve, resolve}

-- The answer of the adapter, with its error wrapped.
answered : Upstream → Result (Unit {0}) → Action (Unit {0})
answered up (ok u) = pure tt
answered up (err e) = raise (sync_failed up.load_balancer up.name e)

call_adapter : Upstream → Option LoadBalancerAdapter → Action (Unit {0})
unfolding answered
call_adapter up none = raise (adapter_not_found up.load_balancer)
call_adapter up (some adapter) = do
  emit (sync_upstream up.load_balancer up)
  answered up (adapter.sync_upstream up)

unfoldable pub sync_load_balancer_upstream : Env → Upstream → Action (Unit {0})
unfolding call_adapter
sync_load_balancer_upstream env up =
    call_adapter up (GoMap.lookup up.load_balancer env.load_balancers)

-- `c.metrics.IncrementSyncErrors(upstreamName); return err`
unfoldable pub counted : {A : Type 0} → Str → Result A → Action A
counted name (ok a) = pure a
counted name (err e) = do emit (increment_sync_errors name); raise e

abbrev pub wrap : {A : Type 0} → (Error → Error) → Result A → Result A
wrap f (ok a) = ok a
wrap f (err e) = err (f e)

abbrev pub and_then : {A B : Type 0} → Result A → (A → Result B) → Result B
and_then (ok a) f = f a
and_then (err e) f = err e

-- The upstream of one service, from its pods.
unfoldable pub service_upstream : Env → Service → Result (Option Upstream)
service_upstream env svc =
    and_then
      (wrap (pods_failed svc.namespace svc.name)
        (env.k8s_client.get_pods_for_selector svc.namespace svc.selector))
      λ pods. wrap (build_failed svc.namespace svc.name) (build_upstream env svc pods)

-- Another service that targets the same upstream.
unfoldable pub shares_upstream : Service → Service → Bool
shares_upstream svc other =
    not (other.namespace == svc.namespace && other.name == svc.name)
    && lb_name other == lb_name svc
    && upstream_name other == upstream_name svc

abbrev pub merge_found : List Backend → Option Upstream → List Backend
merge_found bs none = bs
merge_found bs (some up) = merge_backends bs up.backends

-- The loop that merges the backends of the other services.
unfoldable pub merge_others : Env → Service → List Backend → List Service → Result (List Backend)
unfolding shares_upstream service_upstream
merge_others env svc bs [] = ok bs
merge_others env svc bs (other ∷ others) = elim (shares_upstream svc other) [
  | false ↦ merge_others env svc bs others
  | true ↦ elim (service_upstream env other) [
    | err e ↦ err e
    | ok found ↦ merge_others env svc (merge_found bs found) others
  ]
]

unfoldable pub put_upstream : Str → Upstream → Action (Unit {0})
put_upstream key up c = (
  ok tt,
  record c { state = record c.state { upstreams = GoMap.insert key up c.state.upstreams } },
)

reported : Str → Result (Unit {0}) × Controller → Result (Unit {0}) × Controller
reported name (ok u, c) = (ok u, c)
reported name (err e, c) = (err e, (emit (increment_sync_errors name) c).1)

-- A failing operation is counted after what it has done.
unfoldable pub report : Str → Action (Unit {0}) → Action (Unit {0})
unfolding reported
report name m c = reported name (m c)

-- What follows once the backends are known.
unfoldable pub push_upstream : Env → Service → Upstream → Action (Unit {0})
unfolding put_upstream sync_load_balancer_upstream report
push_upstream env svc up = do
  emit (update_backends_total (upstream_name svc) (length up.backends))
  put_upstream (slash (lb_name svc) (upstream_name svc)) up
  report (upstream_name svc) (sync_load_balancer_upstream env up)
  emit (observe_sync_duration (upstream_name svc))

resolved : Env → Service → Upstream → Fallback → Action (Unit {0})
unfolding push_upstream
resolved env svc up preserve = pure tt
resolved env svc up (push bs) = push_upstream env svc (record up { backends = bs })

found_upstream : Env → Service → Option Upstream → Action (Unit {0})
unfolding counted merge_others resolved
found_upstream env svc none = pure tt
found_upstream env svc (some up) = do
  all ←
      counted (upstream_name svc)
        (wrap (list_failed (slash (lb_name svc) (upstream_name svc))) env.k8s_client.list_services)
  backends ← counted (upstream_name svc) (merge_others env svc up.backends all)
  resolved env svc up (resolve env (get_load_balancer_config env (lb_name svc)) backends)

unfoldable pub sync_upstreams_for_service : Env → Service → Action (Unit {0})
unfolding found_upstream service_upstream counted
sync_upstreams_for_service env svc =
    if lb_name svc == [] || upstream_name svc == [] then pure tt else do
      found ← counted (upstream_name svc) (service_upstream env svc)
      found_upstream env svc found
