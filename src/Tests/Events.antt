-- ===== src/Tests/Events.antt =====
-- The event handlers on small events.
use mlb_controller.Base.{◌≡◌, codes, ◌++◌, some, ◌==◌, str_eq, if◌then◌else◌}
use mlb_controller.Base.GoMap
use mlb_controller.Controller.Env.{slash}
use mlb_controller.Controller.Events.{
  update, add, ServiceEvent, PodEvent, NodeEvent, handle_pod_event, handle_node_event,
}
use mlb_controller.Controller.Events.Laws.{concerned}
use mlb_controller.Controller.Events.Queued.{
  queued_each, queued_on, handle_pod_event-queued, handle_node_event-queued,
}
use mlb_controller.Tests.Fixture.{service, pod, node, start}

abbrev pod_event : PodEvent
pod_event = record { event_type = update; pod = pod }

abbrev node_event : NodeEvent
node_event = record { event_type = add; node = node }

abbrev service_event : ServiceEvent
service_event = record { event_type = add; service = service (codes "a") }

handle_pod_event-queued_example :
    (GoMap.lookup (codes "n/p") (handle_pod_event pod_event start).state.pods ≡ (
      if slash pod.namespace pod.name == codes "n/p"
      then some pod
      else GoMap.lookup (codes "n/p") start.state.pods))
    × ((handle_pod_event pod_event start).effects
        ≡ start.effects
          ++ queued_each
              (concerned update (GoMap.lookup (slash pod.namespace pod.name) start.state.pods) pod)
              start.state.services)
handle_pod_event-queued_example = handle_pod_event-queued pod_event start (codes "n/p")

handle_node_event-queued_example :
    (GoMap.lookup node.name (handle_node_event node_event start).state.nodes
      ≡ (if node.name == node.name then some node else GoMap.lookup node.name start.state.nodes))
    × ((handle_node_event node_event start).effects
        ≡ start.effects ++ queued_on node.name start.state.pods start.state.services)
handle_node_event-queued_example = handle_node_event-queued node_event start node.name
