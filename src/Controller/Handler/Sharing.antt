-- ===== src/Controller/Handler/Sharing.antt =====
-- The deletion of a service whose upstream another service shares.
use mlb_controller.Base.{
  Bool, true, false, not, ◌&&◌, ◌||◌, ◌≡◌, ◌≢◌, List, [], ◌∷◌, ◌++◌, some, Str, ◌==◌, str_eq,
  str_beq_iff, arith, if◌then◌else◌,
}
use mlb_controller.Domain.Model.{Service}
use mlb_controller.Controller.Env.{
  Env, Controller, Result, ok, ◌>>=◌, lb_name, upstream_name, service_key, pure,
}
use mlb_controller.Controller.Sync.SafetyNet.{AreSafe, sync_upstreams_for_service-AreSafe}
use mlb_controller.Controller.Handler.{find_other, released, release, handle_service_deletion}

-- Another service of the cluster that targets the same upstream.
abbrev pub IsOther : Str → Service → Service → Type 0
IsOther key svc s =
    (service_key s ≢ key) × (lb_name s ≡ lb_name svc) × (upstream_name s ≡ upstream_name svc)

find_other-found :
    (key : Str) (svc s : Service) (before after : List Service)
    → IsOther key svc s
    → (t : Service) × (find_other key svc (before ++ s ∷ after) ≡ some t)
unfolding find_other
find_other-found key svc s [] after h = (
  s,
  ground (
    arith,
    str_beq_iff (service_key s) key,
    str_beq_iff (lb_name s) (lb_name svc),
    str_beq_iff (upstream_name s) (upstream_name svc),
  ),
)
find_other-found key svc s (b ∷ before) after h =
    let (t, e) = find_other-found key svc s before after h in
    (
      if not (service_key b == key)
            && lb_name b == lb_name svc
            && upstream_name b == upstream_name svc
          then b
          else t,
      ground (arith, e),
    )

release-AreSafe :
    (env : Env) (key : Str) (svc s : Service) (before after : List Service) (c : Controller)
    (r : Result (List Service))
    → r ≡ ok (before ++ s ∷ after)
    → IsOther key svc s
    → AreSafe env c
    → AreSafe env (release env key svc r c).1
unfolding release released
release-AreSafe env key svc s before after c r l o h =
    let (t, e) = find_other-found key svc s before after o in
    rw l (rw e (sync_upstreams_for_service-AreSafe env t c h))

-- While the cluster lists another service with the same two labels, the deletion of a service sends
-- no upstream without backends, unless empty upstreams are allowed for that load balancer.
pub deletion-AreSafe :
    (env : Env) (key : Str) (svc s : Service) (before after : List Service) (c : Controller)
    → env.k8s_client.list_services ≡ ok (before ++ s ∷ after)
    → IsOther key svc s
    → AreSafe env c
    → AreSafe env (handle_service_deletion env key svc c).1
unfolding handle_service_deletion ◌>>=◌
deletion-AreSafe env key svc s before after c l o h =
    go (lb_name svc == [] || upstream_name svc == [])
      (release-AreSafe env key svc s before after c env.k8s_client.list_services l o h)
  where
    go :
        (b : Bool)
        → AreSafe env (release env key svc env.k8s_client.list_services c).1
        → AreSafe env
            ((if b then pure tt else release env key svc env.k8s_client.list_services) c).1
    go true k = h
    go false k = k
