-- ===== src/Kubernetes/Watch/Laws.antt =====
-- The events of services say when a service enters and leaves the controller's care.
use mlb_controller.Base.{Bool, true, false, not, ◌&&◌, ◌≡◌, refl, Option, none, some, if◌then◌else◌}
use mlb_controller.Controller.Events.{update, delete, ServiceEvent}
use mlb_controller.Kubernetes.Objects.{ServiceObject, is_mlb_service}
use mlb_controller.Kubernetes.Watch.{
  object, service_event, event_if_mlb, updated, updated_to, service_updated,
}

-- The event for a service that is or is not managed before and after an update.
abbrev pub transition : ServiceObject → ServiceObject → Bool → Bool → Option ServiceEvent
transition old new true false = some (service_event delete old)
transition old new false false = none
transition old new _ true = some (service_event update new)

-- An update of a service is passed on as an update, with the new object, exactly if the service is
-- managed afterwards; if it is managed no longer, it becomes a deletion with the old object, whose
-- labels still name the upstream to clean up; and if it never was, there is no event.
pub service_updated-transition :
    (old new : ServiceObject)
    → service_updated (object old) (object new)
      ≡ transition old new (is_mlb_service old) (is_mlb_service new)
unfolding service_updated updated_to updated event_if_mlb
service_updated-transition old new = go (is_mlb_service old) (is_mlb_service new)
  where
    go :
        (was is : Bool)
        → (if was && not is
            then some (service_event delete old)
            else if is
            then some (service_event update new)
            else none)
          ≡ transition old new was is
    go true true = refl
    go true false = refl
    go false true = refl
    go false false = refl
