-- ===== src/Tests/System.antt =====
-- A short run of the controller: it hears of a service that is gone before a worker looks for it.
use mlb_controller.Base.{true, ◌≡◌, refl, [], ◌∷◌, some, codes, any, str_eq}
use mlb_controller.Controller.Env.{Env, Controller, ok}
use mlb_controller.Controller.Events.{add, ServiceEvent, handle_service_event}
use mlb_controller.Controller.Handler.{process_next_item}
use mlb_controller.Controller.System.{
  new_controller, queues, Reach, start, later, service_event, work,
}
use mlb_controller.Controller.System.Justified.{AreJustified}
use mlb_controller.Controller.System.Safety.{runs_justified}
use mlb_controller.Tests.Fixture.{env, service}

abbrev heard_of_b : ServiceEvent
heard_of_b = record { event_type = add; service = service (codes "b") }

abbrev nothing : Env
nothing = env [] (ok [])

abbrev informed : Controller
informed = handle_service_event heard_of_b new_controller

abbrev cleaned : Controller
cleaned = (process_next_item nothing (some (codes "n/b")) informed).1

b_queued : any (queues (codes "n/b")) informed.effects ≡ true
unfolding handle_service_event new_controller mlb_controller.Controller.Env.service_key
    mlb_controller.Base.str_beq mlb_controller.Base.GoMap.lookup
b_queued = refl

cleaned-Reach : Reach nothing.config (nothing ∷ []) cleaned
cleaned-Reach =
    later (later start (service_event heard_of_b new_controller))
      (work nothing refl (codes "n/b") informed b_queued)

runs_justified_example : AreJustified (nothing ∷ []) cleaned
runs_justified_example = runs_justified cleaned-Reach
