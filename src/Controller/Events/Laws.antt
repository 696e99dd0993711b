-- ===== src/Controller/Events/Laws.antt =====
-- What the event handlers do to the queue and to what the controller knows.
use mlb_controller.Base.{
  append_nil, append_assoc, ◌≡◌, refl, sym, ap, ◌∙◌, List, [], ◌∷◌, ◌++◌, Option, none, some,
  str_eq, if◌then◌else◌, str_beq_iff, Bool-cases, inl, inr,
}
use mlb_controller.Base.GoMap
use mlb_controller.Base.GoMap.{GoMap}
use mlb_controller.Domain.Model.{Service, Pod}
use mlb_controller.Controller.Env.{Controller, Effect, queue_add, slash, service_key}
use mlb_controller.Controller.Events.{
  EventType, add, update, delete, ServiceEvent, PodEvent, NodeEvent, store_service,
  handle_service_event, selects, enqueue_selecting, enqueue_upstreams_for_pod, store_pod,
  enqueue_old, handle_pod_event, pods_on, enqueue_pods, enqueue_upstreams_for_node, store_node,
  handle_node_event, enqueue,
}

-- The keys of the services that select a pod, in the order in which the map gives them.
abbrev pub selecting : Pod → GoMap Service → List Effect
selecting pod [] = []
selecting pod ((k, svc) ∷ m) =
    if selects pod svc then queue_add (service_key svc) ∷ selecting pod m else selecting pod m

abbrev pub selecting_each : List Pod → GoMap Service → List Effect
selecting_each [] m = []
selecting_each (pod ∷ pods) m = selecting pod m ++ selecting_each pods m

-- The controller with more effects.
abbrev pub with_effects : List Effect → Controller → Controller
with_effects es c = record c { effects = c.effects ++ es }

with_effects-twice :
    (xs ys : List Effect) (c : Controller)
    → with_effects ys (with_effects xs c) ≡ with_effects (xs ++ ys) c
with_effects-twice xs ys c = ap (λ es. record c { effects = es }) (append_assoc c.effects xs ys)

with_effects-nil : (c : Controller) → with_effects [] c ≡ c
with_effects-nil c = ap (λ es. record c { effects = es }) (append_nil c.effects)

enqueue_selecting-eq :
    (pod : Pod) (m : GoMap Service) (c : Controller)
    → enqueue_selecting pod m c ≡ with_effects (selecting pod m) c
unfolding enqueue_selecting
enqueue_selecting-eq pod [] c = sym (with_effects-nil c)
enqueue_selecting-eq pod ((k, svc) ∷ m) c = elim (Bool-cases (selects pod svc)) [
  | inl t ↦ rw t (
      enqueue_selecting-eq pod m (enqueue (service_key svc) c)
      ∙ with_effects-twice (queue_add (service_key svc) ∷ []) (selecting pod m) c)
  | inr f ↦ rw f (enqueue_selecting-eq pod m c)
]

enqueue_pods-eq :
    (pods : List Pod) (c : Controller)
    → enqueue_pods pods c ≡ with_effects (selecting_each pods c.state.services) c
unfolding enqueue_pods enqueue_upstreams_for_pod
enqueue_pods-eq [] c = sym (with_effects-nil c)
enqueue_pods-eq (pod ∷ pods) c =
    ap (enqueue_pods pods) (enqueue_selecting-eq pod c.state.services c)
    ∙ enqueue_pods-eq pods (with_effects (selecting pod c.state.services) c)
    ∙ with_effects-twice (selecting pod c.state.services) (selecting_each pods c.state.services) c

-- The pods whose services an event concerns: the new one, and before it the one that an update replaced.
abbrev pub concerned : EventType → Option Pod → Pod → List Pod
concerned update (some old) pod = old ∷ pod ∷ []
concerned _ o pod = pod ∷ []

-- A pod event stores the pod, or takes it out after a deletion, and queues exactly the known services
-- that select the pod, in its own namespace and by its labels; an update queues before them those that
-- select the pod as it was before.
pub handle_pod_event-queues :
    (event : PodEvent) (c : Controller)
    → handle_pod_event event c
      ≡ with_effects
          (selecting_each
            (concerned event.event_type
              (GoMap.lookup (slash event.pod.namespace event.pod.name) c.state.pods)
              event.pod)
            c.state.services)
          (store_pod event.event_type (slash event.pod.namespace event.pod.name) event.pod c)
unfolding handle_pod_event store_pod enqueue_old enqueue_pods
handle_pod_event-queues event c =
    go event.event_type (GoMap.lookup (slash event.pod.namespace event.pod.name) c.state.pods)
  where
    go :
        (t : EventType) (o : Option Pod)
        → enqueue_upstreams_for_pod event.pod
            (enqueue_old t o (store_pod t (slash event.pod.namespace event.pod.name) event.pod c))
          ≡ with_effects
              (selecting_each (concerned t o event.pod) c.state.services)
              (store_pod t (slash event.pod.namespace event.pod.name) event.pod c)
    go add o =
        enqueue_pods-eq (event.pod ∷ [])
          (store_pod add (slash event.pod.namespace event.pod.name) event.pod c)
    go delete o =
        enqueue_pods-eq (event.pod ∷ [])
          (store_pod delete (slash event.pod.namespace event.pod.name) event.pod c)
    go update none =
        enqueue_pods-eq (event.pod ∷ [])
          (store_pod update (slash event.pod.namespace event.pod.name) event.pod c)
    go update (some old) =
        enqueue_pods-eq (old ∷ event.pod ∷ [])
          (store_pod update (slash event.pod.namespace event.pod.name) event.pod c)

-- A node event stores the node, or takes it out after a deletion, and queues exactly the known
-- services that select a pod which runs on the node, once for each such pod.
pub handle_node_event-queues :
    (event : NodeEvent) (c : Controller)
    → handle_node_event event c
      ≡ with_effects
          (selecting_each (pods_on event.node.name c.state.pods) c.state.services)
          (store_node event.event_type event.node c)
unfolding handle_node_event enqueue_upstreams_for_node store_node
handle_node_event-queues event c = go event.event_type
  where
    go :
        (t : EventType)
        → enqueue_upstreams_for_node event.node (store_node t event.node c)
          ≡ with_effects
              (selecting_each (pods_on event.node.name c.state.pods) c.state.services)
              (store_node t event.node c)
    go add = enqueue_pods-eq (pods_on event.node.name c.state.pods) (store_node add event.node c)
    go update =
        enqueue_pods-eq (pods_on event.node.name c.state.pods) (store_node update event.node c)
    go delete =
        enqueue_pods-eq (pods_on event.node.name c.state.pods) (store_node delete event.node c)

-- What a service event leaves in `lastKnownServices` under the service's key.
abbrev pub known_after : EventType → Service → Option Service → Option Service
known_after add svc none = some svc
known_after _ svc o = o

-- Every service event queues the service's key and nothing else. The entry under this key in
-- `lastKnownServices` changes only for a new service that has no entry there: an update keeps the old
-- labels for the clean-up.
pub handle_service_event-known :
    (event : ServiceEvent) (c : Controller)
    → ((handle_service_event event c).effects
        ≡ c.effects ++ queue_add (service_key event.service) ∷ [])
      × (GoMap.lookup (service_key event.service) (handle_service_event event c).last_known_services
          ≡ known_after event.event_type event.service
              (GoMap.lookup (service_key event.service) c.last_known_services))
unfolding handle_service_event store_service
handle_service_event-known event c =
    go event.event_type (GoMap.lookup (service_key event.service) c.last_known_services) refl
  where
    go :
        (t : EventType) (o : Option Service)
        → GoMap.lookup (service_key event.service) c.last_known_services ≡ o
        → ((store_service t (service_key event.service) event.service c).effects
              ++ queue_add (service_key event.service) ∷ []
            ≡ c.effects ++ queue_add (service_key event.service) ∷ [])
          × (GoMap.lookup
                (service_key event.service)
                (store_service t (service_key event.service) event.service c).last_known_services
              ≡ known_after t event.service o)
    go update o q = (refl, q)
    go delete o q = (refl, q)
    go add none q = rw q (
      refl,
      GoMap.lookup-insert (service_key event.service) (service_key event.service) event.service
            c.last_known_services
          ∙ rw ((str_beq_iff (service_key event.service) (service_key event.service)).1 refl) refl,
    )
    go add (some old) q = rw q (refl, q)
