-- ===== src/Controller/Events/Queued.antt =====
-- What a pod event and a node event of internal/controller/controller.go leave: the entry of the object,
-- and the keys in the queue.
use mlb_controller.Base.{
  ◌≡◌, refl, ap, ◌∙◌, Bool, true, false, not, ◌&&◌, ◌||◌, inl, inr, Bool-cases, List, [], ◌∷◌, ◌++◌,
  Option, none, some, Str, ◌==◌, str_eq, if◌then◌else◌, any, is_empty,
}
use mlb_controller.Base.GoMap
use mlb_controller.Base.GoMap.{GoMap}
use mlb_controller.Domain.Model.{Service, Pod, Node}
use mlb_controller.Controller.Env.{Controller, Effect, queue_add, slash, service_key}
use mlb_controller.Controller.Build.{match_labels, match_all}
use mlb_controller.Controller.Events.{
  EventType, add, update, delete, PodEvent, NodeEvent, selects, store_pod, handle_pod_event,
  pods_on, store_node, handle_node_event,
}
use mlb_controller.Controller.Events.Laws.{
  selecting, selecting_each, concerned, handle_pod_event-queues, handle_node_event-queues,
}

-- A service routes to a pod: it is in the namespace of the pod, its selector is not empty, and no label
-- of the selector has another value on the pod.
abbrev routes_to : Pod → Service → Bool
routes_to pod svc =
    svc.namespace == pod.namespace
    && not (is_empty svc.selector)
    && not (any (λ r. not (GoMap.index [] r.0 pod.labels == r.1)) svc.selector)

-- The keys of the services that route to a pod, in the order in which the map gives them.
abbrev pub queued : Pod → GoMap Service → List Effect
queued pod [] = []
queued pod ((k, svc) ∷ m) =
    if routes_to pod svc then queue_add (service_key svc) ∷ queued pod m else queued pod m

abbrev pub queued_each : List Pod → GoMap Service → List Effect
queued_each [] m = []
queued_each (pod ∷ pods) m = queued pod m ++ queued_each pods m

-- The keys for the pods that run on a node.
abbrev pub queued_on : Str → GoMap Pod → GoMap Service → List Effect
queued_on name [] m = []
queued_on name ((k, pod) ∷ pods) m =
    if pod.node_name == name then queued pod m ++ queued_on name pods m else queued_on name pods m

-- The entry that an event leaves for its object.
abbrev pub entry_after : {A : Type 0} → EventType → A → Option A
entry_after add a = some a
entry_after update a = some a
entry_after delete a = none

match_all-any :
    (labels selector : GoMap Str)
    → match_all labels selector ≡ not (any (λ r. not (GoMap.index [] r.0 labels == r.1)) selector)
unfolding match_all
match_all-any labels [] = refl
match_all-any labels ((k, v) ∷ selector) =
    step (GoMap.index [] k labels == v) (match_all labels selector)
      (any (λ r. not (GoMap.index [] r.0 labels == r.1)) selector) (match_all-any labels selector)
  where
    step : (b p q : Bool) → p ≡ not q → (if not b then false else p) ≡ not (not b || q)
    step true p q h = h
    step false p q h = refl

selects-routes_to : (pod : Pod) (svc : Service) → selects pod svc ≡ routes_to pod svc
unfolding selects match_labels
selects-routes_to pod svc =
    step (svc.namespace == pod.namespace) (is_empty svc.selector)
      (match_all pod.labels svc.selector)
      (not (any (λ r. not (GoMap.index [] r.0 pod.labels == r.1)) svc.selector))
      (match_all-any pod.labels svc.selector)
  where
    step : (n b p q : Bool) → p ≡ q → (n && (if b then false else p)) ≡ ((n && not b) && q)
    step true true p q h = refl
    step true false p q h = h
    step false b p q h = refl

selecting-eq-queued : (pod : Pod) (m : GoMap Service) → selecting pod m ≡ queued pod m
selecting-eq-queued pod [] = refl
selecting-eq-queued pod ((k, svc) ∷ m) =
    rw (selects-routes_to pod svc, selecting-eq-queued pod m) refl

selecting_each-eq-queued_each :
    (pods : List Pod) (m : GoMap Service) → selecting_each pods m ≡ queued_each pods m
selecting_each-eq-queued_each [] m = refl
selecting_each-eq-queued_each (pod ∷ pods) m =
    rw (selecting-eq-queued pod m, selecting_each-eq-queued_each pods m) refl

pods_on-queued_on :
    (name : Str) (pods : GoMap Pod) (m : GoMap Service)
    → selecting_each (pods_on name pods) m ≡ queued_on name pods m
unfolding pods_on
pods_on-queued_on name [] m = refl
pods_on-queued_on name ((k, pod) ∷ pods) m = elim (Bool-cases (pod.node_name == name)) [
  | inl t ↦ rw t (rw (selecting-eq-queued pod m, pods_on-queued_on name pods m) refl)
  | inr f ↦ rw f (pods_on-queued_on name pods m)
]

store_pod-lookup :
    (t : EventType) (key at : Str) (pod : Pod) (c : Controller)
    → GoMap.lookup at (store_pod t key pod c).state.pods
      ≡ (if key == at then entry_after t pod else GoMap.lookup at c.state.pods)
unfolding store_pod
store_pod-lookup add key at pod c = GoMap.lookup-insert key at pod c.state.pods
store_pod-lookup update key at pod c = GoMap.lookup-insert key at pod c.state.pods
store_pod-lookup delete key at pod c = GoMap.lookup-delete key at c.state.pods

store_node-lookup :
    (t : EventType) (at : Str) (node : Node) (c : Controller)
    → GoMap.lookup at (store_node t node c).state.nodes
      ≡ (if node.name == at then entry_after t node else GoMap.lookup at c.state.nodes)
unfolding store_node
store_node-lookup add at node c = GoMap.lookup-insert node.name at node c.state.nodes
store_node-lookup update at node c = GoMap.lookup-insert node.name at node c.state.nodes
store_node-lookup delete at node c = GoMap.lookup-delete node.name at c.state.nodes

pub store_pod-effects :
    (t : EventType) (key : Str) (pod : Pod) (c : Controller)
    → (store_pod t key pod c).effects ≡ c.effects
unfolding store_pod
store_pod-effects add key pod c = refl
store_pod-effects update key pod c = refl
store_pod-effects delete key pod c = refl

pub store_node-effects :
    (t : EventType) (node : Node) (c : Controller) → (store_node t node c).effects ≡ c.effects
unfolding store_node
store_node-effects add node c = refl
store_node-effects update node c = refl
store_node-effects delete node c = refl

-- After a pod event the pod stands under its key, or nothing does after a deletion, and all other
-- entries of the pods are as before. The queue gets exactly the keys of the known services in the pod's
-- namespace whose selector is not empty and agrees with the labels of the pod, once for each of them;
-- an update queues before them those that agree with the labels of the pod as it was before.
pub handle_pod_event-queued :
    (event : PodEvent) (c : Controller) (at : Str)
    → (GoMap.lookup at (handle_pod_event event c).state.pods ≡ (
        if slash event.pod.namespace event.pod.name == at
        then entry_after event.event_type event.pod
        else GoMap.lookup at c.state.pods))
      × ((handle_pod_event event c).effects
          ≡ c.effects
            ++ queued_each
                (concerned event.event_type
                  (GoMap.lookup (slash event.pod.namespace event.pod.name) c.state.pods)
                  event.pod)
                c.state.services)
handle_pod_event-queued event c at =
    let key = slash event.pod.namespace event.pod.name in
    let pods = concerned event.event_type (GoMap.lookup key c.state.pods) event.pod in
    (
      ap (λ d. GoMap.lookup at d.state.pods) (handle_pod_event-queues event c)
          ∙ store_pod-lookup event.event_type key at event.pod c,
      ap (λ d. d.effects) (handle_pod_event-queues event c)
          ∙ rw
              (
                store_pod-effects event.event_type key event.pod c,
                selecting_each-eq-queued_each pods c.state.services,
              )
              refl,
    )

-- After a node event the node stands under its name, or nothing does after a deletion, and all other
-- entries of the nodes are as before. The queue gets, for each known pod whose node has the name of this
-- one, exactly the keys of the known services in the pod's namespace whose selector is not empty and
-- agrees with the labels of the pod.
pub handle_node_event-queued :
    (event : NodeEvent) (c : Controller) (at : Str)
    → (GoMap.lookup at (handle_node_event event c).state.nodes ≡ (
        if event.node.name == at
        then entry_after event.event_type event.node
        else GoMap.lookup at c.state.nodes))
      × ((handle_node_event event c).effects
          ≡ c.effects ++ queued_on event.node.name c.state.pods c.state.services)
handle_node_event-queued event c at = (
  ap (λ d. GoMap.lookup at d.state.nodes) (handle_node_event-queues event c)
      ∙ store_node-lookup event.event_type at event.node c,
  ap (λ d. d.effects) (handle_node_event-queues event c)
      ∙ rw
          (
            store_node-effects event.event_type event.node c,
            pods_on-queued_on event.node.name c.state.pods c.state.services,
          )
          refl,
)
