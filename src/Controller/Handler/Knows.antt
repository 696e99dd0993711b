-- ===== src/Controller/Handler/Knows.antt =====
-- Synchronising and cleaning up change neither map of services of the controller.
use mlb_controller.Base.{◌≡◌, refl, Str, str_eq}
use mlb_controller.Base.GoMap.{GoMap}
use mlb_controller.Domain.Model.{Service, Upstream}
use mlb_controller.Controller.Env.{Env, Controller, emit, Effect}
use mlb_controller.Controller.Env.Keeps.{Keeps}
use mlb_controller.Controller.Sync.{put_upstream, sync_upstreams_for_service}
use mlb_controller.Controller.Sync.Invariants.{Respects, sync_upstreams_for_service-Keeps}
use mlb_controller.Controller.Handler.Invariants.{deletion-Keeps}
use mlb_controller.Controller.Handler.{delete_upstream, handle_service_deletion}

-- The services that the controller knows, in both maps.
pub record KnowsOnly (services last : GoMap Service) (c : Controller) : Type 0 where
  pub services_eq : c.state.services ≡ services
  pub last_eq : c.last_known_services ≡ last

emit-KnowsOnly :
    (services last : GoMap Service) (e : Effect) (c : Controller)
    → KnowsOnly services last c
    → KnowsOnly services last (emit e c).1
unfolding emit
emit-KnowsOnly services last e c h = record { services_eq = h.services_eq; last_eq = h.last_eq }

stored-KnowsOnly :
    (services last : GoMap Service) (key : Str) (up : Upstream) (c : Controller)
    → KnowsOnly services last c
    → KnowsOnly services last (put_upstream key up c).1
unfolding put_upstream
stored-KnowsOnly services last key up c h = record {
  services_eq = h.services_eq;
  last_eq = h.last_eq;
}

deleted-KnowsOnly :
    (services last : GoMap Service) (key : Str) (c : Controller)
    → KnowsOnly services last c
    → KnowsOnly services last (delete_upstream key c).1
unfolding delete_upstream
deleted-KnowsOnly services last key c h = record {
  services_eq = h.services_eq;
  last_eq = h.last_eq;
}

module _ (services last : GoMap Service) where
  KnowsOnly-Respects : Respects (KnowsOnly services last) (λ _. Unit {0})
  KnowsOnly-Respects = record {
    errors = λ name c h. emit-KnowsOnly services last _ c h;
    duration = λ name c h. emit-KnowsOnly services last _ c h;
    total = λ name bs c h. emit-KnowsOnly services last _ c h;
    stored = stored-KnowsOnly services last;
    pushed = λ up c q h. emit-KnowsOnly services last _ c h;
  }

  sync-KnowsOnly :
      (env : Env) (svc : Service)
      → Keeps (KnowsOnly services last) (sync_upstreams_for_service env svc)
  sync-KnowsOnly env svc =
      sync_upstreams_for_service-Keeps (KnowsOnly services last) (λ _. Unit {0}) KnowsOnly-Respects
        env svc λ up e bs cs r. tt

  deletion-KnowsOnly :
      (env : Env) (key : Str) (svc : Service)
      → Keeps (KnowsOnly services last) (handle_service_deletion env key svc)
  deletion-KnowsOnly env key svc =
      deletion-Keeps (KnowsOnly services last) (λ _. Unit {0}) KnowsOnly-Respects env
        (λ svc' up e bs cs r. tt) (deleted-KnowsOnly services last) key svc (λ u. tt)

-- A clean-up changes neither map of services.
pub deletion_last :
    (env : Env) (key : Str) (svc : Service) (c : Controller)
    → (handle_service_deletion env key svc c).1.last_known_services ≡ c.last_known_services
deletion_last env key svc c =
    ((deletion-KnowsOnly c.state.services c.last_known_services env key svc).at c
      (record { services_eq = refl; last_eq = refl })).last_eq

pub sync_last :
    (env : Env) (svc : Service) (c : Controller)
    → (sync_upstreams_for_service env svc c).1.last_known_services ≡ c.last_known_services
sync_last env svc c =
    ((sync-KnowsOnly c.state.services c.last_known_services env svc).at c
      (record { services_eq = refl; last_eq = refl })).last_eq
