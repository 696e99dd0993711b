-- ===== src/Controller/Reconcile.antt =====
-- `syncSingleLoadBalancer` of internal/controller/controller.go: two-way reconciliation of one load
-- balancer. The desired upstreams are computed in the child module `Desired`.
pub mod Effects
pub mod Invariants
pub mod Replacing
pub mod Desired
pub mod SafetyNet
pub mod FailStatic
pub mod Commit
use mlb_controller.Base.{
  Bool, true, false, not, ◌&&◌, List, [], ◌∷◌, ◌++◌, Option, none, some, Str, ◌==◌, str_eq, length,
  if◌then◌else◌, is_some, codes,
}
use mlb_controller.Base.GoMap
use mlb_controller.Base.GoMap.{GoMap}
use mlb_controller.Base.Text.{has_prefix, trim_prefix}
use mlb_controller.Domain.Model.{Service, Upstream}
use mlb_controller.Controller.Env.{
  Env, Controller, LoadBalancerAdapter, Action, Result, ok, err, Error, list_failed,
  reconcile_failed, both, drift_errors, sync_all_upstreams, update_backends_total,
  increment_sync_errors, sync_upstreams_inc, observe_sync_duration, ◌>>=◌, ◌>>◌, pure, raise, emit,
  lb_name, slash, service_key, has_synced, get_load_balancer_config,
}
use Desired.{desired_upstreams, apply_fallbacks}

-- The services of this load balancer enter the state, and `lastKnownServices` if they are new there.
unfoldable pub populate : Str → List Service → Controller → Controller
populate lb [] c = c
populate lb (svc ∷ svcs) c = populate lb svcs (
    if not (lb_name svc == lb) then c else record c {
      state = record c.state { services = GoMap.insert (service_key svc) svc c.state.services };
      last_known_services =
          if is_some (GoMap.lookup (service_key svc) c.last_known_services)
          then c.last_known_services
          else GoMap.insert (service_key svc) svc c.last_known_services;
    })

-- The set `currentSvcKeys`.
unfoldable pub is_current : Str → List Service → Str → Bool
is_current lb [] key = false
is_current lb (svc ∷ svcs) key =
    if lb_name svc == lb && service_key svc == key then true else is_current lb svcs key

-- Services of this load balancer that the cluster does not list any more leave the state.
unfoldable pub prune_services : Str → List Service → GoMap Service → GoMap Service
unfolding is_current
prune_services lb svcs [] = []
prune_services lb svcs ((key, svc) ∷ m) =
    let rest = prune_services lb svcs m in
    if lb_name svc == lb && not (is_current lb svcs key) then rest else (key, svc) ∷ rest

unfoldable pub refresh_services : Str → List Service → Action (Unit {0})
unfolding populate prune_services
refresh_services lb svcs c =
    let c' = populate lb svcs c in
    (
      ok tt,
      record c' { state = record c'.state { services = prune_services lb svcs c'.state.services } },
    )

-- One round of the loop over the upstreams of the state.
unfoldable pub forget_stale : Str → GoMap Upstream → Str → Controller → Controller
forget_stale lb desired key c =
    let up_name = trim_prefix key (slash lb []) in
    if has_prefix key (slash lb []) && not (is_some (GoMap.lookup up_name desired))
    then record c {
      state = record c.state { upstreams = GoMap.delete key c.state.upstreams };
      effects = c.effects ++ update_backends_total up_name 0 ∷ [];
    }
    else c

unfoldable pub forget_stales : Str → GoMap Upstream → List Str → Controller → Controller
unfolding forget_stale
forget_stales lb desired [] c = c
forget_stales lb desired (k ∷ ks) c = forget_stales lb desired ks (forget_stale lb desired k c)

-- One round of the loop over the desired upstreams.
unfoldable pub store_desired : Str → Str → Upstream → Controller → Controller
store_desired lb name up c =
    if not up.preserve_existing_backends
    then record c {
      state = record c.state { upstreams = GoMap.insert (slash lb name) up c.state.upstreams };
      effects = c.effects ++ update_backends_total name (length up.backends) ∷ [];
    }
    else c

unfoldable pub store_all : Str → GoMap Upstream → Controller → Controller
unfolding store_desired
store_all lb [] c = c
store_all lb ((name, up) ∷ m) c = store_all lb m (store_desired lb name up c)

unfoldable pub commit_upstreams : Str → GoMap Upstream → Action (Unit {0})
unfolding forget_stales store_all
commit_upstreams lb desired c =
    (ok tt, store_all lb desired (forget_stales lb desired (GoMap.keys c.state.upstreams) c))

-- `adapter.SyncAllUpstreams`, with a failure counted and wrapped.
call_adapter : Str → Result (Unit {0}) → Action (Unit {0})
call_adapter lb (ok u) = pure tt
call_adapter lb (err e) = do emit (increment_sync_errors lb); raise (reconcile_failed lb e)

unfoldable pub push_all : Str → LoadBalancerAdapter → GoMap Upstream → Action (Unit {0})
unfolding call_adapter
push_all lb adapter desired = do
  emit (sync_all_upstreams lb desired)
  call_adapter lb (adapter.sync_all_upstreams desired)
  emit sync_upstreams_inc
  emit (observe_sync_duration (codes "reconciliation_" ++ lb))

with_desired : Env → Str → List Service → (GoMap Upstream → Action (Unit {0})) → Action (Unit {0})
unfolding desired_upstreams apply_fallbacks
with_desired env lb services f c =
    f
      (apply_fallbacks env lb (get_load_balancer_config env lb) c.state.upstreams
        (desired_upstreams env lb c.state.upstreams services []))
      c

with_services : Env → Str → LoadBalancerAdapter → Result (List Service) → Action (Unit {0})
unfolding refresh_services with_desired commit_upstreams push_all
with_services env lb adapter (err e) = raise (list_failed lb e)
with_services env lb adapter (ok services) = do
  refresh_services lb services
  with_desired env lb services λ desired. commit_upstreams lb desired >> push_all lb adapter desired

unfoldable pub sync_single_load_balancer : Env → Str → LoadBalancerAdapter → Action (Unit {0})
unfolding with_services has_synced
sync_single_load_balancer env lb adapter =
    if not (has_synced env)
    then pure tt
    else with_services env lb adapter env.k8s_client.list_services

-- The errors of the load balancers, which do not stop the loop.
collect : Option Error → Result (Unit {0}) → Option Error
collect none (ok u) = none
collect none (err e) = some e
collect (some d) (ok u) = some d
collect (some d) (err e) = some (both d e)

sync_each : Env → GoMap LoadBalancerAdapter → Option Error → Controller → Option Error × Controller
unfolding sync_single_load_balancer collect
sync_each env [] errs c = (errs, c)
sync_each env ((name, adapter) ∷ m) errs c =
    let r = sync_single_load_balancer env name adapter c in sync_each env m (collect errs r.0) r.1

finish : Option Error × Controller → Result (Unit {0}) × Controller
finish (none, c) = (ok tt, c)
finish (some e, c) = (err (drift_errors e), c)

unfoldable pub sync_upstreams : Env → Action (Unit {0})
unfolding sync_each finish
sync_upstreams env c = finish (sync_each env env.load_balancers none c)
