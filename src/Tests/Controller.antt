-- ===== src/Tests/Controller.antt =====
-- `syncUpstreamsForService`, `syncHandler` and `handleServiceDeletion` on a small cluster.
use mlb_controller.Base.{
  true, false, ◌≡◌, ◌≢◌, refl, [], ◌∷◌, ◌++◌, none, some, codes, str_eq, str_beq, str_beq_iff, inl,
}
use mlb_controller.Base.GoMap
use mlb_controller.Base.Text.{split}
use mlb_controller.Domain.Model.{Upstream}
use mlb_controller.Controller.Env.{
  Env, Controller, ok, err, port_error, lb_name, upstream_name, slash, service_key,
  update_backends_total, sync_upstream,
}
use mlb_controller.Controller.Sync.{sync_upstreams_for_service}
use mlb_controller.Controller.Sync.SafetyNet.{AreSafe, sync_upstreams_for_service-AreSafe}
use mlb_controller.Controller.Handler.{sync_handler, handle_service_deletion, leave_old}
use mlb_controller.Controller.Handler.Laws.{Gone, Left, sync_handler-Gone, sync_handler_present}
use mlb_controller.Controller.Handler.Sharing.{IsOther}
use mlb_controller.Controller.Handler.Draining.{deletion-drains, drain_result, drain_failures}
use mlb_controller.Tests.Fixture.{env, service, start, adapter}

-- The pod is gone, and the upstream is left alone.
sync_upstreams_for_service-AreSafe_example :
    AreSafe
      (env [] (ok []))
      (sync_upstreams_for_service (env [] (ok [])) (service (codes "a")) start).1
sync_upstreams_for_service-AreSafe_example =
    sync_upstreams_for_service-AreSafe (env [] (ok [])) (service (codes "a")) start tt

-- The controller knows the service `n/b`, which the cluster does not have any more.
abbrev knows_b : Controller
knows_b = record start { last_known_services = (codes "n/b", service (codes "b")) ∷ [] }

sync_handler-Gone_example :
    Gone (codes "n/b") knows_b (sync_handler (env [] (ok [])) (codes "n/b") knows_b)
sync_handler-Gone_example =
    sync_handler-Gone (env [] (ok [])) (codes "n/b") (codes "n") (codes "b")
      (port_error (codes "b")) knows_b parts missing
  where
    parts : split b'/' (codes "n/b") ≡ codes "n" ∷ codes "b" ∷ []
    parts = unfold split in refl

    missing :
        (env [] (ok [])).k8s_client.get_service (codes "n") (codes "b")
        ≡ err (port_error (codes "b"))
    missing = unfold str_beq in refl

sync_handler_present_example :
    Left
      (codes "n/a")
      (service (codes "a"))
      start
      (leave_old (env [] (ok [])) (codes "n/a") (service (codes "a")) start).0
      (sync_handler (env [] (ok [])) (codes "n/a") start)
sync_handler_present_example =
    sync_handler_present (env [] (ok [])) (codes "n/a") (codes "n") (codes "a")
      (service (codes "a")) start parts found
  where
    parts : split b'/' (codes "n/a") ≡ codes "n" ∷ codes "a" ∷ []
    parts = unfold split in refl

    found :
        (env [] (ok [])).k8s_client.get_service (codes "n") (codes "a") ≡ ok (service (codes "a"))
    found = unfold str_beq in refl

apart : false ≡ true → ⊥
apart h = cc

b_shares : IsOther (codes "n/a") (service (codes "a")) (service (codes "b"))
unfolding service_key lb_name upstream_name str_beq
b_shares =
    (λ e. apart ((str_beq_iff (service_key (service (codes "b"))) (codes "n/a")).1 e), refl, refl)

-- The two labels of the fixture are present.
lb_name_present : lb_name (service (codes "a")) ≢ []
unfolding lb_name GoMap.lookup str_beq
lb_name_present e = cc

upstream_name_present : upstream_name (service (codes "a")) ≢ []
unfolding upstream_name GoMap.lookup str_beq
upstream_name_present e = cc

adapter_found :
    GoMap.lookup
      (lb_name (service (codes "a")))
      (env (service (codes "a") ∷ []) (ok [])).load_balancers
    ≡ some adapter
unfolding lb_name GoMap.lookup str_beq
adapter_found = refl

a_deleted : service_key (service (codes "a")) ≡ codes "n/a"
unfolding service_key
a_deleted = refl

-- Only the deleted service itself is still listed.
abbrev alone : Env
alone = env (service (codes "a") ∷ []) (ok [])

deletion-drains_example :
    (GoMap.lookup
        (slash (lb_name (service (codes "a"))) (upstream_name (service (codes "a"))))
        (handle_service_deletion alone (codes "n/a") (service (codes "a")) start).1.state.upstreams
      ≡ none)
    × ((up : Upstream) × (up.backends ≡ [])
        × (up.name ≡ upstream_name (service (codes "a")))
        × (up.load_balancer ≡ lb_name (service (codes "a")))
        × (up.preserve_existing_backends ≡ false)
        × ((handle_service_deletion alone (codes "n/a") (service (codes "a")) start).0
            ≡ drain_result (service (codes "a")) (adapter.sync_upstream up))
        × ((handle_service_deletion alone (codes "n/a") (service (codes "a")) start).1.effects
            ≡ (start.effects ++ update_backends_total (upstream_name (service (codes "a"))) 0 ∷ [])
              ++ sync_upstream (lb_name (service (codes "a"))) up
                ∷ drain_failures (service (codes "a")) (adapter.sync_upstream up)))
deletion-drains_example =
    deletion-drains alone (codes "n/a") (service (codes "a")) (service (codes "a") ∷ []) adapter
      start lb_name_present upstream_name_present refl (inl a_deleted, tt) adapter_found
