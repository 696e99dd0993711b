-- ===== src/Controller/Handler.antt =====
-- `syncHandler`, `handleServiceDeletion` and `processNextItem` of internal/controller/controller.go.
pub mod Invariants
pub mod Knows
pub mod Laws
pub mod Sharing
pub mod Draining
use mlb_controller.Base.{
  Bool, true, false, not, ◌&&◌, ◌||◌, List, [], ◌∷◌, Option, none, some, Str, ◌==◌, str_eq,
  if◌then◌else◌,
}
use mlb_controller.Base.GoMap
use mlb_controller.Base.Text.{split}
use mlb_controller.Domain.Model.{Service, Upstream}
use mlb_controller.Controller.Env.{
  Env, Controller, Action, Result, ok, err, Error, invalid_key, list_failed, queue_forget,
  queue_add_rate_limited, update_backends_total, ◌>>=◌, ◌>>◌, continue, pure, raise, emit, lb_name,
  upstream_name, slash, service_key, get_load_balancer_config, get_load_balancer_type,
}
use mlb_controller.Controller.Sync.{sync_load_balancer_upstream, sync_upstreams_for_service, report}

-- The loop that looks for another service of the same upstream.
unfoldable pub find_other : Str → Service → List Service → Option Service
find_other key svc [] = none
find_other key svc (s ∷ ss) =
    if not (service_key s == key)
      && lb_name s == lb_name svc
      && upstream_name s == upstream_name svc
    then some s
    else find_other key svc ss

unfoldable pub empty_upstream : Env → Service → Upstream
empty_upstream env svc = record {
  name = upstream_name svc;
  load_balancer = lb_name svc;
  backends = [];
  lb_type = get_load_balancer_type env (lb_name svc);
  config = get_load_balancer_config env (lb_name svc);
  preserve_existing_backends = false;
}

unfoldable pub delete_upstream : Str → Action (Unit {0})
delete_upstream key c =
    (ok tt, record c { state = record c.state { upstreams = GoMap.delete key c.state.upstreams } })

-- No other service targets the upstream: it is forgotten and drained.
unfoldable pub drain : Env → Service → Action (Unit {0})
unfolding delete_upstream empty_upstream report sync_load_balancer_upstream
drain env svc = do
  delete_upstream (slash (lb_name svc) (upstream_name svc))
  emit (update_backends_total (upstream_name svc) 0)
  report (upstream_name svc) (sync_load_balancer_upstream env (empty_upstream env svc))

-- Another service keeps the upstream alive and is synchronised in its place.
released : Env → Service → Option Service → Action (Unit {0})
unfolding drain
released env svc (some other) = sync_upstreams_for_service env other
released env svc none = drain env svc

release : Env → Str → Service → Result (List Service) → Action (Unit {0})
unfolding find_other released
release env key svc (err e) = raise (list_failed key e)
release env key svc (ok services) = released env svc (find_other key svc services)

unfoldable pub handle_service_deletion : Env → Str → Service → Action (Unit {0})
unfolding release
handle_service_deletion env key svc =
    if lb_name svc == [] || upstream_name svc == []
    then pure tt
    else release env key svc env.k8s_client.list_services

unfoldable pub forget_service : Str → Action (Unit {0})
forget_service key c = (
  ok tt,
  record c {
    state = record c.state { services = GoMap.delete key c.state.services };
    last_known_services = GoMap.delete key c.last_known_services;
  },
)

unfoldable pub remember_service : Str → Service → Action (Unit {0})
remember_service key svc c = (
  ok tt,
  record c {
    state = record c.state { services = GoMap.insert key svc c.state.services };
    last_known_services = GoMap.insert key svc c.last_known_services;
  },
)

gone_as : Env → Str → Option Service → Action (Unit {0})
unfolding forget_service
gone_as env key none = pure tt
gone_as env key (some last) = handle_service_deletion env key last >> forget_service key

-- The service is gone, or is not managed any more.
unfoldable pub service_gone : Env → Str → Action (Unit {0})
unfolding gone_as
service_gone env key c = gone_as env key (GoMap.lookup key c.last_known_services) c

-- The labels name another upstream than before, and the old one was complete.
unfoldable pub moved : Service → Service → Bool
moved last svc =
    (not (lb_name last == lb_name svc) || not (upstream_name last == upstream_name svc))
    && (not (lb_name last == []) && not (upstream_name last == []))

leave_as : Env → Str → Service → Option Service → Action (Unit {0})
unfolding moved
leave_as env key svc none = pure tt
leave_as env key svc (some last) =
    if moved last svc then handle_service_deletion env key last else pure tt

unfoldable pub leave_old : Env → Str → Service → Action (Unit {0})
unfolding leave_as
leave_old env key svc c = leave_as env key svc (GoMap.lookup key c.last_known_services) c

unfoldable pub service_present : Env → Str → Service → Action (Unit {0})
unfolding leave_old remember_service
service_present env key svc = do
  leave_old env key svc
  remember_service key svc
  sync_upstreams_for_service env svc

handle_found : Env → Str → Result Service → Action (Unit {0})
unfolding service_gone service_present
handle_found env key (err e) = service_gone env key
handle_found env key (ok svc) = service_present env key svc

handle_parts : Env → Str → List Str → Action (Unit {0})
unfolding handle_found
handle_parts env key (namespace ∷ name ∷ []) =
    handle_found env key (env.k8s_client.get_service namespace name)
handle_parts env key _ = raise (invalid_key key)

unfoldable pub sync_handler : Env → Str → Action (Unit {0})
unfolding handle_parts split
sync_handler env key = handle_parts env key (split b'/' key)

unfoldable pub after_sync : Str → Result (Unit {0}) × Controller → Bool × Controller
after_sync key (ok u, c) = (true, (emit (queue_forget key) c).1)
after_sync key (err e, c) = (true, (emit (queue_add_rate_limited key) c).1)

-- `none` stands for a queue that has shut down. All keys of this queue are strings.
unfoldable pub process_next_item : Env → Option Str → Controller → Bool × Controller
unfolding after_sync
process_next_item env none c = (false, c)
process_next_item env (some key) c = after_sync key (sync_handler env key c)
