-- ===== src/Application/Container.antt =====
-- `LoadBalancerFactory` of internal/adapters/loadbalancer/factory.go and `NewContainer` of
-- internal/di/wire.go. Of the container stands what the operations of the other modules work on.
pub mod Laws
pub mod Startup
use mlb_controller.Base.{
  not, some, Bool, true, false, List, [], ◌∷◌, Str, codes, ◌==◌, str_eq, if◌then◌else◌,
}
use mlb_controller.Base.Fallible.{Fallible, success, failure, ◌>>=◌}
use mlb_controller.Base.GoMap
use mlb_controller.Base.GoMap.{GoMap}
use mlb_controller.Net.Tls.{Tls}
use mlb_controller.Domain.Config.{
  Config, KubernetesConfig, MetricsConfig, LoadBalancerConfig, nginx, envoy, NginxConfig,
  EnvoyConfig, get_name, get_type,
}
use mlb_controller.Nginx.Client.{NginxClient}
use mlb_controller.Nginx.ClientSet.{Setup, SetupError, new_nginx_adapter}
use mlb_controller.Application.Loader.{Sources, LoadError, load_config}
use mlb_controller.Application.Logging.{Logger, new_logger, production_logger}
use mlb_controller.Application.Metrics.{Prometheus}
use mlb_controller.Application.Election.{
  ClientGo, ElectionError, build_config_failed, create_client_failed, Created, created, refused,
  new_kubernetes_leader_election,
}

pub data FactoryError : Type 0 where
  cast_failed : Str → FactoryError
  envoy_not_implemented : FactoryError
  unsupported_type : Str → FactoryError
  nginx_failed : SetupError → FactoryError
  adapter_failed : Str → FactoryError → FactoryError

-- An adapter stands for its clients; its caches are empty at the start.
abbrev pub Made : Type 0 → Type 0
Made A = Fallible FactoryError A

of_setup : Setup (List NginxClient) → Made (List NginxClient)
of_setup (success clients) = success clients
of_setup (failure e) = failure (nginx_failed e)

create_nginx : Tls → LoadBalancerConfig → Made (List NginxClient)
unfolding of_setup new_nginx_adapter
create_nginx tls (nginx c) = of_setup (new_nginx_adapter tls c)
create_nginx tls (envoy c) = failure (cast_failed c.name)

unfoldable pub create_load_balancer_adapter : Tls → LoadBalancerConfig → Made (List NginxClient)
unfolding create_nginx
create_load_balancer_adapter tls lb =
    if get_type lb == codes "nginx"
    then create_nginx tls lb
    else if get_type lb == codes "envoy"
    then failure envoy_not_implemented
    else failure (unsupported_type (get_type lb))

-- The loop, with the map of the adapters so far.
after_adapter :
    Str
    → Made (List NginxClient)
    → (GoMap (List NginxClient) → Made (GoMap (List NginxClient)))
    → GoMap (List NginxClient)
    → Made (GoMap (List NginxClient))
after_adapter name (failure e) rest m = failure (adapter_failed name e)
after_adapter name (success clients) rest m = rest (GoMap.insert name clients m)

unfoldable pub create_adapters :
    Tls → List LoadBalancerConfig → GoMap (List NginxClient) → Made (GoMap (List NginxClient))
unfolding create_load_balancer_adapter after_adapter
create_adapters tls [] m = success m
create_adapters tls (lb ∷ lbs) m =
    after_adapter (get_name lb) (create_load_balancer_adapter tls lb) (create_adapters tls lbs) m

pub data ContainerError : Type 0 where
  bootstrap_failed : Str → ContainerError
  load_failed : LoadError → ContainerError
  kubernetes_failed : ElectionError → ContainerError
  election_failed : ElectionError → ContainerError
  adapters_failed : FactoryError → ContainerError

pub record Container : Type 0 where
  pub config : Config
  pub logger : Logger
  pub metrics : Prometheus
  pub adapters : GoMap (List NginxClient)

abbrev pub wrap_error :
    {E A : Type 0} → (E → ContainerError) → Fallible E A → Fallible ContainerError A
wrap_error f (failure e) = failure (f e)
wrap_error f (success a) = success a

-- `NewKubernetesAdapter` of internal/adapters/kubernetes/client.go: the client, or why there is none.
unfoldable pub new_kubernetes_adapter :
    ClientGo → KubernetesConfig → Fallible ElectionError (Unit {0})
new_kubernetes_adapter go k8s_cfg =
    if not (go.build_config k8s_cfg.kubernetes_config)
    then failure (build_config_failed k8s_cfg.kubernetes_config)
    else if not (go.new_for_config k8s_cfg.kubernetes_config)
    then failure create_client_failed
    else success tt

abbrev pub of_created : Created → Fallible ElectionError Bool
of_created (created client) = success client
of_created (refused e) = failure e

-- `NewPrometheusAdapter`, with the checker that `NewContainer` sets.
unfoldable pub new_prometheus : Bool → MetricsConfig → Prometheus
new_prometheus synced metrics_config = record {
  metrics_config = metrics_config;
  ready_checker = some synced;
  is_leader = false;
  serving = false;
  backends_total = [];
  sync_errors_total = [];
  sync_durations = [];
  sync_upstreams_total = 0;
}

-- What follows once the configuration is there; `synced` is what `HasSynced` of the client answers.
unfoldable pub with_config :
    Tls → ClientGo → Bool → Logger → Config → Fallible ContainerError Container
unfolding new_kubernetes_adapter new_kubernetes_leader_election create_adapters new_prometheus
    production_logger
with_config tls go synced bootstrap cfg = do
  client ← wrap_error kubernetes_failed (new_kubernetes_adapter go cfg.kubernetes)
  election ←
      wrap_error election_failed
        (of_created (new_kubernetes_leader_election go cfg.leader_election cfg.kubernetes))
  adapters ← wrap_error adapters_failed (create_adapters tls cfg.load_balancers [])
  success (record {
    config = cfg;
    logger = production_logger bootstrap cfg.log;
    metrics = new_prometheus synced cfg.metrics;
    adapters = adapters;
  })

unfoldable pub new_container :
    {Raw : Type 0} → Tls → ClientGo → Bool → Sources Raw → Fallible ContainerError Container
unfolding with_config load_config new_logger
new_container tls go synced src = do
  bootstrap ← wrap_error bootstrap_failed (new_logger (codes "info") (codes "json"))
  cfg ← wrap_error load_failed (load_config src)
  with_config tls go synced bootstrap cfg
