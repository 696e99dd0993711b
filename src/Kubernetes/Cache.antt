-- ===== src/Kubernetes/Cache.antt =====
-- The reading operations of the client: `GetPodsForSelector`, `GetService`, `ListServices`,
-- `GetNodeByName` and `HasSynced`. The listers of client-go are parameters.
pub mod Laws
use mlb_controller.Base.{
  Bool, true, false, not, ◌&&◌, List, [], ◌∷◌, ◌++◌, Option, none, some, Str, codes, if◌then◌else◌,
  is_empty, map,
}
use mlb_controller.Base.GoMap.{GoMap}
use mlb_controller.Domain.Model.{Service, Pod, Node}
use mlb_controller.Controller.Env.{Result, ok, err, Error, port_error, KubernetesPort}
use mlb_controller.Kubernetes.Objects.{
  ServiceObject, PodObject, NodeObject, is_mlb_service, map_service, map_pod, map_node,
}

-- The caches of the informers, with the text of an error where a lister fails.
pub record Listers : Type 0 where
  pub pods : Str → GoMap Str → Result (List PodObject)
  pub service : Str → Str → Result ServiceObject
  pub services : Result (List ServiceObject)
  pub node : Str → Result NodeObject
  pub services_synced : Bool
  pub pods_synced : Bool
  pub nodes_synced : Bool

listed_pods : Result (List PodObject) → Result (List Pod)
unfolding map_pod
listed_pods (err e) = err e
listed_pods (ok pods) = ok (map map_pod pods)

-- An empty selector matches no pod.
unfoldable pub get_pods_for_selector : Listers → Str → GoMap Str → Result (List Pod)
unfolding listed_pods
get_pods_for_selector l namespace selector =
    if is_empty selector then ok [] else listed_pods (l.pods namespace selector)

managed : Str → Str → Result ServiceObject → Result Service
unfolding map_service is_mlb_service
managed namespace name (err e) = err e
managed namespace name (ok svc) =
    if not (is_mlb_service svc)
    then err (
        port_error
          (codes "service " ++ namespace ++ (b'/' ∷ name) ++ codes " is not an MLB service"))
    else ok (map_service svc)

unfoldable pub get_service : Listers → Str → Str → Result Service
unfolding managed
get_service l namespace name = managed namespace name (l.service namespace name)

keep_managed : List ServiceObject → List Service
unfolding map_service is_mlb_service
keep_managed [] = []
keep_managed (svc ∷ svcs) =
    let rest = keep_managed svcs in if is_mlb_service svc then map_service svc ∷ rest else rest

all_managed : Result (List ServiceObject) → Result (List Service)
unfolding keep_managed
all_managed (err e) = err e
all_managed (ok svcs) = ok (keep_managed svcs)

unfoldable pub list_services : Listers → Result (List Service)
unfolding all_managed
list_services l = all_managed l.services

found_node : Result NodeObject → Result Node
unfolding map_node
found_node (err e) = err e
found_node (ok node) = ok (map_node node)

unfoldable pub get_node_by_name : Listers → Str → Result Node
unfolding found_node
get_node_by_name l name = found_node (l.node name)

-- The adapter as the port that the controller is given.
unfoldable pub kubernetes_port : Listers → KubernetesPort
unfolding get_pods_for_selector get_service list_services get_node_by_name
kubernetes_port l = record {
  get_pods_for_selector = get_pods_for_selector l;
  get_node_by_name = get_node_by_name l;
  get_service = get_service l;
  list_services = list_services l;
  has_synced = l.services_synced && l.pods_synced && l.nodes_synced;
}
