-- ===== src/Controller/Events.antt =====
-- The event handlers of internal/controller/controller.go.
pub mod Laws
pub mod Queueing
pub mod Queued
use mlb_controller.Base.{
  Bool, true, false, not, ◌&&◌, List, [], ◌∷◌, ◌++◌, Option, none, some, Str, ◌==◌, str_eq, is_some,
  if◌then◌else◌,
}
use mlb_controller.Base.GoMap
use mlb_controller.Base.GoMap.{GoMap}
use mlb_controller.Domain.Model.{Service, Pod, Node}
use mlb_controller.Controller.Env.{Controller, Effect, queue_add, slash, service_key}
use mlb_controller.Controller.Build.{match_labels}

-- kubernetes.EventType
pub data EventType : Type 0 where
  add update delete : EventType

pub record ServiceEvent : Type 0 where
  pub event_type : EventType
  pub service : Service

pub record PodEvent : Type 0 where
  pub event_type : EventType
  pub pod : Pod

pub record NodeEvent : Type 0 where
  pub event_type : EventType
  pub node : Node

-- c.queue.Add(key)
abbrev pub enqueue : Str → Controller → Controller
enqueue key c = record c { effects = c.effects ++ queue_add key ∷ [] }

abbrev pub set_services : GoMap Service → Controller → Controller
set_services m c = record c { state = record c.state { services = m } }

abbrev remember_first : Str → Service → Controller → Controller
remember_first key svc c =
    if is_some (GoMap.lookup key c.last_known_services)
    then c
    else record c { last_known_services = GoMap.insert key svc c.last_known_services }

-- An update leaves `lastKnownServices` alone, so that `syncHandler` sees what changed.
unfoldable pub store_service : EventType → Str → Service → Controller → Controller
store_service add key svc c =
    remember_first key svc (set_services (GoMap.insert key svc c.state.services) c)
store_service update key svc c = set_services (GoMap.insert key svc c.state.services) c
store_service delete key svc c = set_services (GoMap.delete key c.state.services) c

unfoldable pub handle_service_event : ServiceEvent → Controller → Controller
unfolding store_service
handle_service_event event c =
    let key = service_key event.service in
    enqueue key (store_service event.event_type key event.service c)

-- Whether a service selects a pod.
unfoldable pub selects : Pod → Service → Bool
selects pod svc = svc.namespace == pod.namespace && match_labels pod.labels svc.selector

enqueue_selecting : Pod → GoMap Service → Controller → Controller
unfolding selects
enqueue_selecting pod [] c = c
enqueue_selecting pod ((k, svc) ∷ m) c =
    enqueue_selecting pod m (if selects pod svc then enqueue (service_key svc) c else c)

unfoldable pub enqueue_upstreams_for_pod : Pod → Controller → Controller
unfolding enqueue_selecting
enqueue_upstreams_for_pod pod c = enqueue_selecting pod c.state.services c

abbrev set_pods : GoMap Pod → Controller → Controller
set_pods m c = record c { state = record c.state { pods = m } }

unfoldable pub store_pod : EventType → Str → Pod → Controller → Controller
store_pod add key pod c = set_pods (GoMap.insert key pod c.state.pods) c
store_pod update key pod c = set_pods (GoMap.insert key pod c.state.pods) c
store_pod delete key pod c = set_pods (GoMap.delete key c.state.pods) c

-- The services of the pod as it was, where an update replaced it.
enqueue_old : EventType → Option Pod → Controller → Controller
unfolding enqueue_upstreams_for_pod
enqueue_old update (some old) c = enqueue_upstreams_for_pod old c
enqueue_old _ o c = c

unfoldable pub handle_pod_event : PodEvent → Controller → Controller
unfolding store_pod enqueue_old enqueue_upstreams_for_pod
handle_pod_event event c =
    let key = slash event.pod.namespace event.pod.name in
    enqueue_upstreams_for_pod event.pod (
      enqueue_old event.event_type (GoMap.lookup key c.state.pods)
        (store_pod event.event_type key event.pod c))

-- The pods that run on a node.
unfoldable pub pods_on : Str → GoMap Pod → List Pod
pods_on name [] = []
pods_on name ((k, pod) ∷ m) =
    let rest = pods_on name m in if pod.node_name == name then pod ∷ rest else rest

enqueue_pods : List Pod → Controller → Controller
unfolding enqueue_upstreams_for_pod
enqueue_pods [] c = c
enqueue_pods (pod ∷ pods) c = enqueue_pods pods (enqueue_upstreams_for_pod pod c)

unfoldable pub enqueue_upstreams_for_node : Node → Controller → Controller
unfolding enqueue_pods pods_on
enqueue_upstreams_for_node node c = enqueue_pods (pods_on node.name c.state.pods) c

abbrev set_nodes : GoMap Node → Controller → Controller
set_nodes m c = record c { state = record c.state { nodes = m } }

unfoldable pub store_node : EventType → Node → Controller → Controller
store_node add node c = set_nodes (GoMap.insert node.name node c.state.nodes) c
store_node update node c = set_nodes (GoMap.insert node.name node c.state.nodes) c
store_node delete node c = set_nodes (GoMap.delete node.name c.state.nodes) c

unfoldable pub handle_node_event : NodeEvent → Controller → Controller
unfolding store_node enqueue_upstreams_for_node
handle_node_event event c =
    enqueue_upstreams_for_node event.node (store_node event.event_type event.node c)
