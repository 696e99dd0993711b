-- ===== src/Tests/Kubernetes.antt =====
-- The Kubernetes client on small objects.
use mlb_controller.Base.{
  true, ◌≡◌, refl, List, ◌++◌, inl, [], ◌∷◌, some, codes, pos, str_eq, str_beq, All,
}
use mlb_controller.Base.GoMap
use mlb_controller.Controller.Env.{ok}
use mlb_controller.Domain.Model.{Service}
use mlb_controller.Kubernetes.Objects.{
  ServiceObject, PodObject, get_node_port, is_mlb_service, is_exposed, map_service,
}
use mlb_controller.Kubernetes.Objects.Laws.{IsPortOrNone, get_node_port-bounds}
use mlb_controller.Kubernetes.Watch.{object, service_updated}
use mlb_controller.Kubernetes.Watch.Laws.{transition, service_updated-transition}
use mlb_controller.Kubernetes.Cache.{Listers, list_services, get_service}
use mlb_controller.Kubernetes.Cache.Laws.{IsManaged, services-IsManaged}

abbrev managed_object : ServiceObject
managed_object = record {
  name = codes "a";
  namespace = codes "n";
  labels =
      (codes "mlb-loadbalancer-name", codes "l")
      ∷ (codes "mlb-upstream-name", codes "u")
      ∷ (codes "mlb-port", codes "31000")
      ∷ [];
  selector = [];
  service_type = codes "NodePort";
  ports = pos 80 ∷ [];
}

abbrev plain_object : ServiceObject
plain_object = record managed_object { labels = [] }

abbrev terminating : PodObject
terminating = record {
  name = codes "p";
  namespace = codes "n";
  labels = [];
  node_name = codes "m";
  ip = [];
  phase = codes "Running";
  deleting = true;
  conditions = record { condition_type = codes "Ready"; status = codes "True" } ∷ [];
  containers = true ∷ [];
}

labelled_port : get_node_port managed_object ≡ pos 31000
unfolding get_node_port GoMap.lookup str_beq
labelled_port = refl

port_label : GoMap.lookup (codes "mlb-port") managed_object.labels ≡ some (codes "31000")
unfolding GoMap.lookup str_beq
port_label = refl

get_node_port-bounds_example :
    IsPortOrNone (get_node_port managed_object)
    × (get_node_port (record managed_object { ports = pos 70000 ∷ [] })
        ≡ get_node_port managed_object)
get_node_port-bounds_example =
    get_node_port-bounds managed_object (codes "31000") (pos 70000 ∷ []) port_label

service_updated-transition_example :
    service_updated (object managed_object) (object plain_object)
    ≡ transition managed_object plain_object
        (is_mlb_service managed_object)
        (is_mlb_service plain_object)
service_updated-transition_example = service_updated-transition managed_object plain_object

abbrev caches : Listers
caches = record {
  pods = λ namespace selector. ok [];
  service = λ namespace name. ok managed_object;
  services = ok (managed_object ∷ plain_object ∷ []);
  node = λ name. ok (record { name = name; addresses = [] });
  services_synced = true;
  pods_synced = true;
  nodes_synced = true;
}

one_listed : list_services caches ≡ ok (map_service managed_object ∷ [])
unfolding list_services is_mlb_service is_exposed GoMap.lookup str_beq
one_listed = refl

one_found : get_service caches (codes "n") (codes "a") ≡ ok (map_service managed_object)
unfolding get_service is_mlb_service is_exposed GoMap.lookup str_beq
one_found = refl

services-IsManaged_example :
    All IsManaged (map_service managed_object ∷ map_service managed_object ∷ [])
    × ((xs ys : List Service) × (map_service managed_object ∷ []
          ≡ xs ++ map_service managed_object ∷ ys))
unfolding GoMap.lookup str_beq
services-IsManaged_example =
    services-IsManaged caches (codes "n") (codes "a") [] (plain_object ∷ []) managed_object
      (map_service managed_object ∷ []) (map_service managed_object) refl
      (refl, refl, refl, inl refl) one_listed one_found
