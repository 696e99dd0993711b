-- ===== src/Controller/Events/Queueing.antt =====
-- What the event handlers do to the effects: they queue keys.
use mathlib.Core.Path.{subst}
use mlb_controller.Base.{sym, inl, inr, List, [], ◌∷◌, Str, Bool-cases, All, All-append}
use mlb_controller.Base.GoMap
use mlb_controller.Base.GoMap.{GoMap}
use mlb_controller.Domain.Model.{Service, Pod}
use mlb_controller.Controller.Env.{Controller, Effect, queue_add, slash, service_key}
use mlb_controller.Controller.Events.{
  ServiceEvent, PodEvent, NodeEvent, handle_service_event, handle_pod_event, handle_node_event,
  store_pod, store_node, selects, pods_on,
}
use mlb_controller.Controller.Events.Queued.{store_pod-effects, store_node-effects}
use mlb_controller.Controller.Events.Laws.{
  selecting, selecting_each, concerned, handle_service_event-known, handle_pod_event-queues,
  handle_node_event-queues,
}

-- A property of all effects, which a queued key has.
module _ (J : Effect → Type 0) (queued : (key : Str) → J (queue_add key)) where
  abbrev Holds : Controller → Type 0
  Holds c = All J c.effects

  pub service_event-Holds :
      (event : ServiceEvent) (c : Controller) → Holds c → Holds (handle_service_event event c)
  service_event-Holds event c h = subst (All J) (sym (handle_service_event-known event c).0) (
      All-append J c.effects (queue_add (service_key event.service) ∷ []) h
        (queued (service_key event.service), tt))

  selecting-Holds : (pod : Pod) (m : GoMap Service) → All J (selecting pod m)
  selecting-Holds pod [] = tt
  selecting-Holds pod ((k, svc) ∷ m) = elim (Bool-cases (selects pod svc)) [
    | inl t ↦ rw t (queued (service_key svc), selecting-Holds pod m)
    | inr f ↦ rw f (selecting-Holds pod m)
  ]

  selecting_each-Holds : (pods : List Pod) (m : GoMap Service) → All J (selecting_each pods m)
  selecting_each-Holds [] m = tt
  selecting_each-Holds (pod ∷ pods) m =
      All-append J (selecting pod m) (selecting_each pods m) (selecting-Holds pod m)
        (selecting_each-Holds pods m)

  pub pod_event-Holds :
      (event : PodEvent) (c : Controller) → Holds c → Holds (handle_pod_event event c)
  pod_event-Holds event c h =
      let key = slash event.pod.namespace event.pod.name in
      let pods = concerned event.event_type (GoMap.lookup key c.state.pods) event.pod in
      subst Holds (sym (handle_pod_event-queues event c)) (
        All-append J (store_pod event.event_type key event.pod c).effects
          (selecting_each pods c.state.services)
          (subst (All J) (sym (store_pod-effects event.event_type key event.pod c)) h)
          (selecting_each-Holds pods c.state.services))

  pub node_event-Holds :
      (event : NodeEvent) (c : Controller) → Holds c → Holds (handle_node_event event c)
  node_event-Holds event c h =
      let pods = pods_on event.node.name c.state.pods in
      subst Holds (sym (handle_node_event-queues event c)) (
        All-append J (store_node event.event_type event.node c).effects
          (selecting_each pods c.state.services)
          (subst (All J) (sym (store_node-effects event.event_type event.node c)) h)
          (selecting_each-Holds pods c.state.services))
