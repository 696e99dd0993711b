-- ===== src/Domain/Defaults.antt =====
-- internal/domain/config/default.go, and `SetDefaults` of nginx.go and envoy.go.
pub mod Laws
pub mod Filled
use mlb_controller.Base.{
  Bool, true, not, ◌&&◌, List, map, Option, none, some, Str, codes, ℤ, pos, ◌==◌, str_eq, int_eq,
  if◌then◌else◌,
}
use mlb_controller.Domain.Config.{
  Config, LoadBalancerConfig, nginx, envoy, NginxConfig, EnvoyConfig, DefaultBackendConfig,
  LeaderElectionConfig, LogConfig, MetricsConfig, KubernetesConfig, seconds,
}

abbrev pub global_upstream_sync_period : ℤ
global_upstream_sync_period = seconds 10

abbrev pub leader_election_lease_duration : ℤ
leader_election_lease_duration = seconds 15

abbrev pub leader_election_renew_deadline : ℤ
leader_election_renew_deadline = seconds 10

abbrev pub leader_election_retry_period : ℤ
leader_election_retry_period = seconds 2

abbrev pub log_level : Str
log_level = codes "info"

abbrev pub log_format : Str
log_format = codes "json"

abbrev pub leader_election_lease_name : Str
leader_election_lease_name = codes "mlb-controller-lease"

abbrev pub leader_election_lease_namespace : Str
leader_election_lease_namespace = codes "default"

abbrev pub metrics_port : ℤ
metrics_port = pos 9090

abbrev pub metrics_uri : Str
metrics_uri = codes "/metrics"

abbrev pub kubernetes_resync_period : ℤ
kubernetes_resync_period = seconds 30

abbrev pub request_pool_size : ℤ
request_pool_size = pos 10

abbrev pub request_time_out : ℤ
request_time_out = seconds 30

abbrev pub fail_timeout : ℤ
fail_timeout = seconds 60

-- `if x == 0 { x = d }`
unfoldable pub or_default : ℤ → ℤ → ℤ
or_default x d = if x == pos 0 then d else x

-- `if s == "" { s = d }`
unfoldable pub or_default_str : Str → Str → Str
or_default_str s d = if s == codes "" then d else s

unfoldable pub set_defaults_nginx : NginxConfig → ℤ → ℤ → NginxConfig
set_defaults_nginx c global_period global_pool = record c {
  upstream_sync_period = or_default c.upstream_sync_period global_period;
  fail_timeout = or_default c.fail_timeout fail_timeout;
  request_timeout = or_default c.request_timeout request_time_out;
  request_pool_size = or_default c.request_pool_size global_pool;
}

unfoldable pub set_defaults_envoy : EnvoyConfig → ℤ → ℤ → EnvoyConfig
set_defaults_envoy c global_period global_pool = record c {
  upstream_sync_period = or_default c.upstream_sync_period global_period;
  request_timeout = or_default c.request_timeout request_time_out;
  request_pool_size = or_default c.request_pool_size global_pool;
}

abbrev pub inherit_backend :
    Option DefaultBackendConfig → Option DefaultBackendConfig → Option DefaultBackendConfig
inherit_backend none d = d
inherit_backend (some b) d = some b

-- One round of the loop over the load balancers; `cfg` has the global defaults already.
unfoldable pub load_balancer_defaults : Config → LoadBalancerConfig → LoadBalancerConfig
unfolding set_defaults_nginx set_defaults_envoy
load_balancer_defaults cfg (nginx c) =
    let d = set_defaults_nginx c cfg.global_upstream_sync_period cfg.request_pool_size in
    nginx (record d {
      allow_empty_upstream =
          if not d.allow_empty_upstream && cfg.allow_empty_upstream
          then true
          else d.allow_empty_upstream;
      default_backend = inherit_backend d.default_backend cfg.default_backend;
    })
load_balancer_defaults cfg (envoy c) =
    let d = set_defaults_envoy c cfg.global_upstream_sync_period cfg.request_pool_size in
    envoy (record d {
      allow_empty_upstream =
          if not d.allow_empty_upstream && cfg.allow_empty_upstream
          then true
          else d.allow_empty_upstream;
      default_backend = inherit_backend d.default_backend cfg.default_backend;
    })

unfoldable pub global_defaults : Config → Config
global_defaults cfg = record cfg {
  global_upstream_sync_period =
      or_default cfg.global_upstream_sync_period global_upstream_sync_period;
  leader_election = record cfg.leader_election {
    lease_name = or_default_str cfg.leader_election.lease_name leader_election_lease_name;
    lease_namespace =
        or_default_str cfg.leader_election.lease_namespace leader_election_lease_namespace;
    lease_duration = or_default cfg.leader_election.lease_duration leader_election_lease_duration;
    renew_deadline = or_default cfg.leader_election.renew_deadline leader_election_renew_deadline;
    retry_period = or_default cfg.leader_election.retry_period leader_election_retry_period;
  };
  log = record cfg.log {
    level = or_default_str cfg.log.level log_level;
    format = or_default_str cfg.log.format log_format;
  };
  metrics = record cfg.metrics {
    port = or_default cfg.metrics.port metrics_port;
    uri = or_default_str cfg.metrics.uri metrics_uri;
  };
  kubernetes = record cfg.kubernetes {
    resync_period = or_default cfg.kubernetes.resync_period kubernetes_resync_period;
  };
  request_pool_size = or_default cfg.request_pool_size request_pool_size;
}

unfoldable pub apply_default_values : Config → Config
unfolding global_defaults load_balancer_defaults
apply_default_values cfg =
    let g = global_defaults cfg in
    record g { load_balancers = map (load_balancer_defaults g) g.load_balancers }
