-- ===== src/Controller/System.antt =====
-- The controller as it runs: `NewController`, `processEvents`, `runWorker` and `runPeriodicSync` of
-- internal/controller/controller.go as a step relation. A handler is one step; the informers' caches
-- and the answers of the load balancers are those of an `Env`, another one at each step.
pub mod Justified
pub mod Safety
use mlb_controller.Base.{
  ◌≡◌, Bool, true, false, ◌||◌, List, [], ◌∷◌, ◌++◌, some, Str, ◌==◌, str_eq, any,
}
use mlb_controller.Base.GoMap
use mlb_controller.Domain.Config.{Config}
use mlb_controller.Domain.Model.{ControllerState}
use mlb_controller.Controller.Env.{
  Env, Controller, LoadBalancerAdapter, Effect, queue_add, queue_forget, queue_add_rate_limited,
  update_backends_total, increment_sync_errors, observe_sync_duration, sync_upstreams_inc,
  sync_upstream, sync_all_upstreams,
}
use mlb_controller.Controller.Events.{
  ServiceEvent, PodEvent, NodeEvent, handle_service_event, handle_pod_event, handle_node_event,
}
use mlb_controller.Controller.Handler.{process_next_item}
use mlb_controller.Controller.Reconcile.{sync_single_load_balancer, sync_upstreams}

unfoldable pub new_controller : Controller
new_controller = record {
  state = record { services = []; pods = []; nodes = []; upstreams = [] };
  last_known_services = [];
  effects = [];
}

-- Whether an effect puts the key into the queue.
abbrev pub queues : Str → Effect → Bool
queues key (queue_add k) = k == key
queues key (queue_add_rate_limited k) = k == key
queues key (queue_forget k) = false
queues key (update_backends_total name n) = false
queues key (increment_sync_errors name) = false
queues key (observe_sync_duration name) = false
queues key sync_upstreams_inc = false
queues key (sync_upstream lb up) = false
queues key (sync_all_upstreams lb ups) = false

-- A step from a controller to the next, with what it saw of the outside world: nothing, or an `Env`.
pub data Step (config : Config) : List Env → Controller → Controller → Type 0 where
  service_event :
      (event : ServiceEvent) (c : Controller) → Step config [] c (handle_service_event event c)
  pod_event : (event : PodEvent) (c : Controller) → Step config [] c (handle_pod_event event c)
  node_event : (event : NodeEvent) (c : Controller) → Step config [] c (handle_node_event event c)
  -- A worker takes a key that was queued.
  work :
      (env : Env)
      → env.config ≡ config
      → (key : Str) (c : Controller) → any (queues key) c.effects ≡ true
      → Step config (env ∷ []) c (process_next_item env (some key) c).1
  -- The ticker of one load balancer.
  tick :
      (env : Env)
      → env.config ≡ config
      → (lb : Str) (adapter : LoadBalancerAdapter) (c : Controller)
      → GoMap.lookup lb env.load_balancers ≡ some adapter
      → Step config (env ∷ []) c (sync_single_load_balancer env lb adapter c).1
  -- The synchronisation of all load balancers, which `Start` begins with.
  sync_all :
      (env : Env)
      → env.config ≡ config
      → (c : Controller) → Step config (env ∷ []) c (sync_upstreams env c).1

-- The states of a controller that runs, with all that it has seen, the latest first.
pub data Reach (config : Config) : List Env → Controller → Type 0 where
  start : Reach config [] new_controller
  later :
      {seen now : List Env} {c d : Controller}
      → Reach config seen c
      → Step config now c d
      → Reach config (now ++ seen) d

-- `GetState`: the copies of the maps.
unfoldable pub get_state : Controller → ControllerState
get_state c = record {
  services = c.state.services;
  pods = c.state.pods;
  nodes = c.state.nodes;
  upstreams = c.state.upstreams;
}
