-- ===== src/Kubernetes/Objects.antt =====
-- The objects of the API server as far as the client reads them, and how it maps them.
pub mod Laws
use mlb_controller.Base.{
  Bool, true, false, not, ◌&&◌, ◌||◌, List, [], ◌∷◌, Option, none, some, Str, codes, ℤ, pos, leb_ℤ,
  ◌==◌, str_eq, if◌then◌else◌, is_some, is_empty,
}
use mlb_controller.Base.GoMap
use mlb_controller.Base.GoMap.{GoMap}
use mlb_controller.Base.Decimal.{parse_int32}
use mlb_controller.Domain.Model.{Service, Pod, Node}

-- corev1.Service; `ports` has the node ports of `Spec.Ports`.
pub record ServiceObject : Type 0 where
  pub name : Str
  pub namespace : Str
  pub labels : GoMap Str
  pub selector : GoMap Str
  pub service_type : Str
  pub ports : List ℤ

pub record Condition : Type 0 where
  pub condition_type : Str
  pub status : Str

-- corev1.Pod; `deleting` tells whether `DeletionTimestamp` is set, `containers` which containers are ready.
pub record PodObject : Type 0 where
  pub name : Str
  pub namespace : Str
  pub labels : GoMap Str
  pub node_name : Str
  pub ip : Str
  pub phase : Str
  pub deleting : Bool
  pub conditions : List Condition
  pub containers : List Bool

pub record NodeAddress : Type 0 where
  pub address_type : Str
  pub address : Str

-- corev1.Node
pub record NodeObject : Type 0 where
  pub name : Str
  pub addresses : List NodeAddress

-- corev1.ServiceTypeNodePort or corev1.ServiceTypeLoadBalancer
unfoldable pub is_exposed : Str → Bool
is_exposed t = t == codes "LoadBalancer" || t == codes "NodePort"

unfoldable pub is_mlb_service : ServiceObject → Bool
unfolding is_exposed
is_mlb_service svc =
    GoMap.has (codes "mlb-loadbalancer-name") svc.labels
    && GoMap.has (codes "mlb-upstream-name") svc.labels
    && GoMap.has (codes "mlb-port") svc.labels
    && is_exposed svc.service_type

unfoldable pub is_port : ℤ → Bool
is_port p = leb_ℤ (pos 1) p && leb_ℤ p (pos 65535)

-- The port of the label, 0 where it is not a port.
label_port : Option ℤ → ℤ
unfolding is_port
label_port none = pos 0
label_port (some p) = if is_port p then p else pos 0

first_port : Bool → List ℤ → ℤ
unfolding is_port
first_port exposed [] = pos 0
first_port exposed (np ∷ nps) = if exposed && is_port np then np else pos 0

port_as : ServiceObject → Option Str → ℤ
unfolding label_port first_port parse_int32 is_exposed
port_as svc (some text) = label_port (parse_int32 text)
port_as svc none = first_port (is_exposed svc.service_type) svc.ports

unfoldable pub get_node_port : ServiceObject → ℤ
unfolding port_as
get_node_port svc = port_as svc (GoMap.lookup (codes "mlb-port") svc.labels)

all_ready : List Bool → Bool
all_ready [] = true
all_ready (ready ∷ rest) = if not ready then false else all_ready rest

-- What decides where no condition is `Ready`.
running : PodObject → Bool
unfolding all_ready
running pod =
    if not (pod.phase == codes "Running")
    then false
    else if is_empty pod.containers
    then false
    else all_ready pod.containers

-- The loop over the conditions.
ready_condition : PodObject → List Condition → Bool
unfolding running
ready_condition pod [] = running pod
ready_condition pod (c ∷ cs) =
    if c.condition_type == codes "Ready" then c.status == codes "True" else ready_condition pod cs

unfoldable pub is_pod_ready : PodObject → Bool
unfolding ready_condition
is_pod_ready pod = if pod.deleting then false else ready_condition pod pod.conditions

-- The loops of `getNodeInternalIP` and `getNodeExternalIP`.
find_address : Str → List NodeAddress → Str
find_address t [] = []
find_address t (a ∷ rest) = if a.address_type == t then a.address else find_address t rest

unfoldable pub get_node_internal_ip : NodeObject → Str
unfolding find_address
get_node_internal_ip node = find_address (codes "InternalIP") node.addresses

unfoldable pub get_node_external_ip : NodeObject → Str
unfolding find_address
get_node_external_ip node = find_address (codes "ExternalIP") node.addresses

unfoldable pub map_service : ServiceObject → Service
unfolding get_node_port
map_service svc = record {
  name = svc.name;
  namespace = svc.namespace;
  labels = svc.labels;
  selector = svc.selector;
  service_type = svc.service_type;
  node_port = get_node_port svc;
}

unfoldable pub map_pod : PodObject → Pod
unfolding is_pod_ready
map_pod pod = record {
  name = pod.name;
  namespace = pod.namespace;
  node_name = pod.node_name;
  ip = pod.ip;
  status = pod.phase;
  ready = is_pod_ready pod;
  labels = pod.labels;
}

unfoldable pub map_node : NodeObject → Node
unfolding get_node_internal_ip get_node_external_ip
map_node node = record {
  name = node.name;
  cluster_ip = [];
  internal_ip = get_node_internal_ip node;
  external_ip = get_node_external_ip node;
}
