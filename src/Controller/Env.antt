-- ===== src/Controller/Env.antt =====
-- What the controller works with: its state, its ports, and the effects of its operations.
pub mod Keeps
use mlb_controller.Base.{
  ◌≡◌, refl, ◌⊎◌, inl, inr, ℕ, Bool, List, [], ◌∷◌, ◌++◌, Option, none, some, Str, codes, ◌==◌,
  str_eq, if◌then◌else◌,
}
use mlb_controller.Base.GoMap
use mlb_controller.Base.GoMap.{GoMap}
use mlb_controller.Domain.Config.{Config, LoadBalancerConfig, get_name, get_type}
use mlb_controller.Domain.Model.{Service, Pod, Node, Upstream, ControllerState}

-- The errors that the operations return, with the names that the messages show.
pub data Error : Type 0 where
  port_error : Str → Error
  invalid_key : Str → Error
  pods_failed : Str → Str → Error → Error
  node_failed : Str → Str → Error → Error
  build_failed : Str → Str → Error → Error
  list_failed : Str → Error → Error
  adapter_not_found : Str → Error
  sync_failed : Str → Str → Error → Error
  reconcile_failed : Str → Error → Error
  drift_errors : Error → Error
  both : Error → Error → Error

pub data Result {ℓ} (A : Type ℓ) : Type ℓ where
  ok : A → Result A
  err : Error → Result A

pub Result-cases {ℓ} :
    {A : Type ℓ} (r : Result A) → ((a : A) × (r ≡ ok a)) ⊎ ((e : Error) × (r ≡ err e))
Result-cases (ok a) = inl (a, refl)
Result-cases (err e) = inr (e, refl)

-- The read operations of `KubernetesPort`: one snapshot of the informer caches.
pub record KubernetesPort : Type 0 where
  pub get_pods_for_selector : Str → GoMap Str → Result (List Pod)
  pub get_node_by_name : Str → Result Node
  pub get_service : Str → Str → Result Service
  pub list_services : Result (List Service)
  pub has_synced : Bool

-- What a load balancer's adapter answers.
pub record LoadBalancerAdapter : Type 0 where
  pub sync_upstream : Upstream → Result (Unit {0})
  pub sync_all_upstreams : GoMap Upstream → Result (Unit {0})

-- What an operation does to the queue, the metrics and the load balancers.
pub data Effect : Type 0 where
  queue_add : Str → Effect
  queue_forget : Str → Effect
  queue_add_rate_limited : Str → Effect
  update_backends_total : Str → ℕ → Effect
  increment_sync_errors : Str → Effect
  observe_sync_duration : Str → Effect
  sync_upstreams_inc : Effect
  sync_upstream : Str → Upstream → Effect
  sync_all_upstreams : Str → GoMap Upstream → Effect

-- The fields of `ControllerImpl` that its operations change, and the effects so far.
pub record Controller : Type 0 where
  pub state : ControllerState
  pub last_known_services : GoMap Service
  pub effects : List Effect

-- The fields that stay, with the outside world as they reach it.
pub record Env : Type 0 where
  pub k8s_client : KubernetesPort
  pub load_balancers : GoMap LoadBalancerAdapter
  pub config : Config

-- An operation: what it returns, and the state after it.
abbrev pub Action : Type 0 → Type 0
Action A = Controller → Result A × Controller

abbrev pub continue :
    {A B : Type 0} → Result A × Controller → (A → Action B) → Result B × Controller
continue (ok a, c) f = f a c
continue (err e, c) f = (err e, c)

unfoldable pub pure : {A : Type 0} → A → Action A
pure a c = (ok a, c)

unfoldable pub raise : {A : Type 0} → Error → Action A
raise e c = (err e, c)

unfoldable pub emit : Effect → Action (Unit {0})
emit e c = (ok tt, record c { effects = c.effects ++ e ∷ [] })

infixl 5 ◌>>=◌ ◌>>◌
-- Opening this opens `pure`, `raise` and `emit` too.
unfoldable pub ◌>>=◌ : {A B : Type 0} → Action A → (A → Action B) → Action B
unfolding pure raise emit
◌>>=◌ m f c = continue (m c) f

abbrev pub ◌>>◌ : {A B : Type 0} → Action A → Action B → Action B
m >> k = m >>= λ _. k

-- svc.Labels["mlb-loadbalancer-name"] and svc.Labels["mlb-upstream-name"]
unfoldable pub lb_name : Service → Str
lb_name svc = GoMap.index [] (codes "mlb-loadbalancer-name") svc.labels

unfoldable pub upstream_name : Service → Str
upstream_name svc = GoMap.index [] (codes "mlb-upstream-name") svc.labels

-- fmt.Sprintf("%s/%s", a, b)
unfoldable pub slash : Str → Str → Str
slash a b = a ++ (b'/' ∷ b)

unfoldable pub service_key : Service → Str
unfolding slash
service_key svc = slash svc.namespace svc.name

-- The loops of `getLoadBalancerConfig` and `getLoadBalancerType`.
unfoldable pub find_config : Str → List LoadBalancerConfig → Option LoadBalancerConfig
find_config name [] = none
find_config name (lb ∷ lbs) = if get_name lb == name then some lb else find_config name lbs

unfoldable pub get_load_balancer_config : Env → Str → Option LoadBalancerConfig
unfolding find_config
get_load_balancer_config env name = find_config name env.config.load_balancers

find_type : Str → List LoadBalancerConfig → Str
find_type name [] = []
find_type name (lb ∷ lbs) = if get_name lb == name then get_type lb else find_type name lbs

unfoldable pub get_load_balancer_type : Env → Str → Str
unfolding find_type
get_load_balancer_type env name = find_type name env.config.load_balancers

unfoldable pub has_synced : Env → Bool
has_synced env = env.k8s_client.has_synced
