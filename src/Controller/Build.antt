-- ===== src/Controller/Build.antt =====
-- `buildUpstream` and `matchLabels` of internal/controller/controller.go.
pub mod Counting
pub mod Laws
use mlb_controller.Base.{
  Bool, true, false, not, ◌&&◌, ◌||◌, List, [], ◌∷◌, Option, none, some, Str, ℤ, pos, ◌==◌, str_eq,
  int_eq, if◌then◌else◌, is_empty,
}
use mlb_controller.Base.GoMap
use mlb_controller.Base.GoMap.{GoMap}
use mlb_controller.Domain.Config.{LoadBalancerConfig, get_ip_replacement}
use mlb_controller.Domain.Model.{Service, Pod, Node, Backend, Upstream}
use mlb_controller.Util.IpReplacement.{apply_ip_replacement}
use mlb_controller.Controller.Env.{
  Env, Result, ok, err, node_failed, lb_name, upstream_name, get_load_balancer_config,
  get_load_balancer_type,
}
use mlb_controller.Controller.Merge.{merge_backends}

-- `nodeIP`: the internal address, or else the external one.
abbrev pub node_address : Node → Str
node_address node = if node.internal_ip == [] then node.external_ip else node.internal_ip

replaced : Env → Str → Option LoadBalancerConfig → Str
replaced env ip none = ip
replaced env ip (some lb) =
    if get_ip_replacement lb
    then apply_ip_replacement ip lb env.config.global_ip_replacement_list
    else ip

-- The address that the load balancer is given for a node.
unfoldable pub backend_ip : Env → Service → Str → Str
unfolding replaced
backend_ip env svc ip = replaced env ip (get_load_balancer_config env (lb_name svc))

-- One round of the loop: no backend, one, or the error that ends the loop.
unfoldable pub pod_backend : Env → Service → Pod → Result (Option Backend)
unfolding backend_ip
pod_backend env svc pod =
    if not pod.ready || pod.node_name == []
    then ok none
    else elim (env.k8s_client.get_node_by_name pod.node_name) [
      | err e ↦ err (node_failed pod.node_name pod.name e)
      | ok node ↦
          if node_address node == []
          then ok none
          else ok (
              some (record {
                ip = backend_ip env svc (node_address node);
                port = svc.node_port;
                weight = pos 1;
              }))
    ]

abbrev pub cons_backend : Option Backend → Result (List Backend) → Result (List Backend)
cons_backend o (err e) = err e
cons_backend none (ok bs) = ok bs
cons_backend (some b) (ok bs) = ok (b ∷ bs)

unfoldable pub after_pod : Result (Option Backend) → Result (List Backend) → Result (List Backend)
after_pod (err e) rest = err e
after_pod (ok o) rest = cons_backend o rest

-- The loop over the pods, which stops at the first error.
unfoldable pub pod_backends : Env → Service → List Pod → Result (List Backend)
pod_backends env svc [] = ok []
pod_backends env svc (pod ∷ pods) =
    let rest = pod_backends env svc pods in after_pod (pod_backend env svc pod) rest

-- The test at the head of `buildUpstream`: `nil` for a service that names no upstream or port.
unfoldable pub is_unmanaged : Service → Bool
is_unmanaged svc = svc.node_port == pos 0 || lb_name svc == [] || upstream_name svc == []

unfoldable pub build_upstream : Env → Service → List Pod → Result (Option Upstream)
build_upstream env svc pods =
    if is_unmanaged svc then ok none else elim (pod_backends env svc pods) [
      | err e ↦ err e
      | ok backends ↦ ok (
          some (record {
            name = upstream_name svc;
            load_balancer = lb_name svc;
            backends = merge_backends backends [];
            lb_type = get_load_balancer_type env (lb_name svc);
            config = get_load_balancer_config env (lb_name svc);
            preserve_existing_backends = false;
          }))
    ]

unfoldable pub match_all : GoMap Str → GoMap Str → Bool
match_all pod_labels [] = true
match_all pod_labels ((k, v) ∷ sel) =
    if not (GoMap.index [] k pod_labels == v) then false else match_all pod_labels sel

unfoldable pub match_labels : GoMap Str → GoMap Str → Bool
unfolding match_all
match_labels pod_labels selector =
    if is_empty selector then false else match_all pod_labels selector
