-- ===== src/Kubernetes/Watch.antt =====
-- The event handlers that `WatchServices`, `WatchPods` and `WatchNodes` register.
pub mod Laws
use mlb_controller.Base.{Bool, true, false, not, ◌&&◌, Option, none, some, if◌then◌else◌}
use mlb_controller.Controller.Events.{
  add, update, delete, ServiceEvent, PodEvent, NodeEvent, EventType,
}
use mlb_controller.Kubernetes.Objects.{
  ServiceObject, PodObject, NodeObject, is_mlb_service, map_service, map_pod, map_node,
}

-- What the informer hands to a handler: an object of the watched kind, a tombstone of one, or
-- something else.
pub data Object (A : Type 0) : Type 0 where
  object : A → Object A
  tombstone : A → Object A
  other : Object A

-- obj.(*T)
abbrev pub cast : {A : Type 0} → Object A → Option A
cast (object a) = some a
cast (tombstone a) = none
cast other = none

-- The object of a tombstone takes its place.
abbrev pub cast_deleted : {A : Type 0} → Object A → Option A
cast_deleted (object a) = some a
cast_deleted (tombstone a) = some a
cast_deleted other = none

unfoldable pub service_event : EventType → ServiceObject → ServiceEvent
unfolding map_service
service_event t svc = record { event_type = t; service = map_service svc }

event_if_mlb : EventType → Option ServiceObject → Option ServiceEvent
unfolding service_event is_mlb_service
event_if_mlb t none = none
event_if_mlb t (some svc) = if is_mlb_service svc then some (service_event t svc) else none

unfoldable pub service_added : Object ServiceObject → Option ServiceEvent
unfolding event_if_mlb
service_added obj = event_if_mlb add (cast obj)

updated : Option ServiceObject → ServiceObject → Option ServiceEvent
unfolding event_if_mlb service_event is_mlb_service
updated none new = event_if_mlb update (some new)
updated (some old) new =
    if is_mlb_service old && not (is_mlb_service new)
    then some (service_event delete old)
    else event_if_mlb update (some new)

updated_to : Option ServiceObject → Option ServiceObject → Option ServiceEvent
unfolding updated
updated_to old none = none
updated_to old (some new) = updated old new

unfoldable pub service_updated : Object ServiceObject → Object ServiceObject → Option ServiceEvent
unfolding updated_to
service_updated old new = updated_to (cast old) (cast new)

unfoldable pub service_deleted : Object ServiceObject → Option ServiceEvent
unfolding event_if_mlb
service_deleted obj = event_if_mlb delete (cast_deleted obj)

abbrev pub pod_event : EventType → Option PodObject → Option PodEvent
pod_event t none = none
pod_event t (some pod) = some (record { event_type = t; pod = map_pod pod })

abbrev pub pod_added : Object PodObject → Option PodEvent
pod_added obj = pod_event add (cast obj)

abbrev pub pod_updated : Object PodObject → Object PodObject → Option PodEvent
pod_updated old new = pod_event update (cast new)

abbrev pub pod_deleted : Object PodObject → Option PodEvent
pod_deleted obj = pod_event delete (cast_deleted obj)

abbrev pub node_event : EventType → Option NodeObject → Option NodeEvent
node_event t none = none
node_event t (some node) = some (record { event_type = t; node = map_node node })

abbrev pub node_added : Object NodeObject → Option NodeEvent
node_added obj = node_event add (cast obj)

abbrev pub node_updated : Object NodeObject → Object NodeObject → Option NodeEvent
node_updated old new = node_event update (cast new)

abbrev pub node_deleted : Object NodeObject → Option NodeEvent
node_deleted obj = node_event delete (cast_deleted obj)
