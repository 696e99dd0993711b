-- ===== src/Controller/Reconcile/Desired.antt =====
-- The desired upstreams of one load balancer in `syncSingleLoadBalancer`, with fail-static handling
-- of errors, the default backend and the safety net.
use mlb_controller.Base.{
  Bool, true, not, ◌&&◌, List, [], ◌∷◌, Option, none, some, Str, ◌==◌, str_eq, if◌then◌else◌,
  is_empty,
}
use mlb_controller.Base.GoMap
use mlb_controller.Base.GoMap.{GoMap}
use mlb_controller.Domain.Config.{LoadBalancerConfig}
use mlb_controller.Domain.Model.{Service, Backend, Upstream}
use mlb_controller.Controller.Env.{Env, Result, ok, err, lb_name, upstream_name, slash}
use mlb_controller.Controller.Merge.{merge_backends}
use mlb_controller.Controller.Sync.{service_upstream}
use mlb_controller.Controller.Fallback.{Fallback, push, preserve, fallback}

abbrev pub backends_of : Option Upstream → List Backend
backends_of none = []
backends_of (some up) = up.backends

-- `preserveUp`: the adapter leaves this upstream untouched.
unfoldable pub preserved : Str → Str → GoMap Upstream → Upstream
preserved lb name known = record {
  name = name;
  load_balancer = lb;
  backends = backends_of (GoMap.lookup (slash lb name) known);
  lb_type = [];
  config = none;
  preserve_existing_backends = true;
}

-- The desired upstream that one more service contributes to.
unfoldable pub join_upstream : Option Upstream → Upstream → Upstream
join_upstream none up = up
join_upstream (some existing) up =
    if not existing.preserve_existing_backends
    then record existing { backends = merge_backends existing.backends up.backends }
    else existing

-- One round of the loop over the services; `known` is `c.state.Upstreams`.
unfoldable pub add_service :
    Str → GoMap Upstream → Service → Result (Option Upstream) → GoMap Upstream → GoMap Upstream
unfolding preserved join_upstream
add_service lb known svc (err e) desired =
    GoMap.insert (upstream_name svc) (preserved lb (upstream_name svc) known) desired
add_service lb known svc (ok none) desired = desired
add_service lb known svc (ok (some up)) desired =
    GoMap.insert up.name (join_upstream (GoMap.lookup up.name desired) up) desired

unfoldable pub is_target : Str → Service → Bool
is_target lb svc = lb_name svc == lb && not (upstream_name svc == [])

unfoldable pub desired_upstreams :
    Env → Str → GoMap Upstream → List Service → GoMap Upstream → GoMap Upstream
unfolding add_service is_target
desired_upstreams env lb known [] desired = desired
desired_upstreams env lb known (svc ∷ svcs) desired = desired_upstreams env lb known svcs (
    if is_target lb svc
    then add_service lb known svc (service_upstream env svc) desired
    else desired)

-- The old backends, where the state has some; the upstream is marked as preserved in any case.
unfoldable pub keep_old : Str → Str → GoMap Upstream → Upstream → Upstream
keep_old lb name known up =
    let old = backends_of (GoMap.lookup (slash lb name) known) in
    record up {
      backends = if not (is_empty old) then old else up.backends;
      preserve_existing_backends = true;
    }

unfoldable pub decide : Str → Str → GoMap Upstream → Upstream → Fallback → Upstream
unfolding keep_old
decide lb name known up preserve = keep_old lb name known up
decide lb name known up (push bs) = record up { backends = bs }

-- One round of the loop over the desired upstreams.
unfoldable pub apply_fallback :
    Env → Str → Option LoadBalancerConfig → GoMap Upstream → Str → Upstream → Upstream
unfolding decide
apply_fallback env lb config known name up =
    if not up.preserve_existing_backends && is_empty up.backends
    then decide lb name known up (fallback env config)
    else up

unfoldable pub apply_fallbacks :
    Env → Str → Option LoadBalancerConfig → GoMap Upstream → GoMap Upstream → GoMap Upstream
unfolding apply_fallback
apply_fallbacks env lb config known [] = []
apply_fallbacks env lb config known ((name, up) ∷ m) =
    (name, apply_fallback env lb config known name up) ∷ apply_fallbacks env lb config known m
