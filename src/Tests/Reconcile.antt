-- ===== src/Tests/Reconcile.antt =====
-- `syncSingleLoadBalancer` on a small cluster.
use mlb_controller.Base.{true, false, ◌≡◌, refl, [], ◌∷◌, ◌++◌, codes, str_eq, str_beq}
use mlb_controller.Base.GoMap
use mlb_controller.Base.GoMap.{GoMap}
use mlb_controller.Domain.Model.{Upstream}
use mlb_controller.Controller.Env.{
  Env, ok, err, port_error, pods_failed, lb_name, upstream_name, slash, get_load_balancer_config,
}
use mlb_controller.Controller.Sync.{service_upstream}
use mlb_controller.Controller.Reconcile.{commit_upstreams, sync_upstreams}
use mlb_controller.Controller.Reconcile.Desired.{is_target, desired_upstreams, apply_fallbacks}
use mlb_controller.Controller.Reconcile.SafetyNet.{AreSafe, sync_upstreams-AreSafe}
use mlb_controller.Controller.Reconcile.FailStatic.{Spares, failed_service-preserved}
use mlb_controller.Controller.Reconcile.Commit.{committed, commit_upstreams-lookup}
use mlb_controller.Tests.Fixture.{env, service, start, upstream, backend}

sync_upstreams-AreSafe_example :
    AreSafe
      (env (service (codes "a") ∷ []) (ok []))
      (sync_upstreams (env (service (codes "a") ∷ []) (ok [])) start).1
sync_upstreams-AreSafe_example =
    sync_upstreams-AreSafe (env (service (codes "a") ∷ []) (ok [])) start tt

-- The pods cannot be listed.
abbrev failing : Env
failing = env [] (err (port_error []))

a_targets : is_target (codes "l") (service (codes "a")) ≡ true
unfolding is_target str_beq lb_name GoMap.lookup upstream_name
a_targets = refl

a_fails :
    service_upstream failing (service (codes "a"))
    ≡ err (pods_failed (codes "n") (codes "a") (port_error []))
unfolding service_upstream
a_fails = refl

failed_service-preserved_example : Spares (upstream_name (service (codes "a"))) (
    apply_fallbacks failing (codes "l") (get_load_balancer_config failing (codes "l")) [] (
      desired_upstreams failing
        (codes "l")
        []
        ([] ++ service (codes "a") ∷ service (codes "b") ∷ [])
        []))
failed_service-preserved_example =
    failed_service-preserved failing (codes "l") [] [] (service (codes "a"))
      (service (codes "b") ∷ []) (pods_failed (codes "n") (codes "a") (port_error [])) a_targets
      a_fails

abbrev desired : GoMap Upstream
desired = (codes "u", upstream false (backend (codes "10.0.0.1") ∷ [])) ∷ []

commit_upstreams-lookup_example :
    GoMap.lookup
      (slash (codes "l") (codes "u"))
      (commit_upstreams (codes "l") desired start).1.state.upstreams
    ≡ committed
        (GoMap.lookup (codes "u") desired)
        (GoMap.lookup (slash (codes "l") (codes "u")) start.state.upstreams)
commit_upstreams-lookup_example =
    commit_upstreams-lookup (codes "l") (codes "u") desired start (unfold GoMap.lookup in refl, tt)
