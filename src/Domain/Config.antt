-- ===== src/Domain/Config.antt =====
-- internal/domain/config: the configuration, as the loader builds it. Durations are numbers of
-- nanoseconds. The loader and `SetDefaults` make values of `NginxConfig` and `EnvoyConfig`, never
-- pointers to them, so the interface `LoadBalancerConfig` has these two cases.
use mlb_controller.Base.{Bool, List, Option, ℕ, Str, ℤ, pos, ◌*◌}

pub record DefaultBackendConfig : Type 0 where
  pub ip : Str
  pub port : ℤ
  pub weight : ℤ

pub record NetConfig : Type 0 where
  pub source : Str
  pub target : Str
  pub mask : ℤ

pub record IpConfig : Type 0 where
  pub source : Str
  pub target : Str

pub record GlobalNetReplacement : Type 0 where
  pub name : Str
  pub nets : List NetConfig

pub record GlobalIpReplacement : Type 0 where
  pub name : Str
  pub ips : List IpConfig

pub record GlobalIpReplacementList : Type 0 where
  pub net : List GlobalNetReplacement
  pub ip : List GlobalIpReplacement

pub record AddressConfig : Type 0 where
  pub ip : Str
  pub port : ℤ

pub record IpReplacementList : Type 0 where
  pub nets : List NetConfig
  pub ips : List IpConfig
  pub global_nets : List Str
  pub global_ips : List Str

pub record NginxConfig : Type 0 where
  pub lb_type : Str
  pub name : Str
  pub ip_replacement : Bool
  pub ip_replacement_list : IpReplacementList
  pub addresses : List AddressConfig
  pub list_api : Str
  pub add_api : Str
  pub remove_api : Str
  pub upstream_sync_period : ℤ
  pub fail_timeout : ℤ
  pub request_timeout : ℤ
  pub protocol : Str
  pub hostname : Str
  pub cert_path : Str
  pub key_path : Str
  pub ca_path : Str
  pub cert : Str
  pub key : Str
  pub ca : Str
  pub request_pool_size : ℤ
  pub prune_orphans : Bool
  pub allow_empty_upstream : Bool
  pub default_backend : Option DefaultBackendConfig

pub record EnvoyConfig : Type 0 where
  pub lb_type : Str
  pub name : Str
  pub ip_replacement : Bool
  pub ip_replacement_list : IpReplacementList
  pub addresses : List AddressConfig
  pub upstream_sync_period : ℤ
  pub request_timeout : ℤ
  pub protocol : Str
  pub hostname : Str
  pub cert_path : Str
  pub key_path : Str
  pub ca_path : Str
  pub cert : Str
  pub key : Str
  pub ca : Str
  pub request_pool_size : ℤ
  pub prune_orphans : Bool
  pub allow_empty_upstream : Bool
  pub default_backend : Option DefaultBackendConfig

pub data LoadBalancerConfig : Type 0 where
  nginx : NginxConfig → LoadBalancerConfig
  envoy : EnvoyConfig → LoadBalancerConfig

abbrev pub get_name : LoadBalancerConfig → Str
get_name (nginx c) = c.name
get_name (envoy c) = c.name

abbrev pub get_type : LoadBalancerConfig → Str
get_type (nginx c) = c.lb_type
get_type (envoy c) = c.lb_type

abbrev pub get_addresses : LoadBalancerConfig → List AddressConfig
get_addresses (nginx c) = c.addresses
get_addresses (envoy c) = c.addresses

abbrev pub get_host_name : LoadBalancerConfig → Str
get_host_name (nginx c) = c.hostname
get_host_name (envoy c) = c.hostname

abbrev pub get_ip_replacement : LoadBalancerConfig → Bool
get_ip_replacement (nginx c) = c.ip_replacement
get_ip_replacement (envoy c) = c.ip_replacement

abbrev pub get_ip_replacement_list : LoadBalancerConfig → IpReplacementList
get_ip_replacement_list (nginx c) = c.ip_replacement_list
get_ip_replacement_list (envoy c) = c.ip_replacement_list

abbrev pub get_request_pool_size : LoadBalancerConfig → ℤ
get_request_pool_size (nginx c) = c.request_pool_size
get_request_pool_size (envoy c) = c.request_pool_size

abbrev pub get_request_time_out : LoadBalancerConfig → ℤ
get_request_time_out (nginx c) = c.request_timeout
get_request_time_out (envoy c) = c.request_timeout

abbrev pub get_upstream_sync_period : LoadBalancerConfig → ℤ
get_upstream_sync_period (nginx c) = c.upstream_sync_period
get_upstream_sync_period (envoy c) = c.upstream_sync_period

abbrev pub get_allow_empty_upstream : LoadBalancerConfig → Bool
get_allow_empty_upstream (nginx c) = c.allow_empty_upstream
get_allow_empty_upstream (envoy c) = c.allow_empty_upstream

abbrev pub get_default_backend : LoadBalancerConfig → Option DefaultBackendConfig
get_default_backend (nginx c) = c.default_backend
get_default_backend (envoy c) = c.default_backend

pub record LeaderElectionConfig : Type 0 where
  pub enabled : Bool
  pub lease_name : Str
  pub lease_namespace : Str
  pub lease_duration : ℤ
  pub renew_deadline : ℤ
  pub retry_period : ℤ

pub record LogConfig : Type 0 where
  pub enabled : Bool
  pub level : Str
  pub format : Str

pub record MetricsConfig : Type 0 where
  pub enabled : Bool
  pub port : ℤ
  pub uri : Str

pub record KubernetesConfig : Type 0 where
  pub resync_period : ℤ
  pub kubernetes_config : Str

pub record Config : Type 0 where
  pub global_upstream_sync_period : ℤ
  pub leader_election : LeaderElectionConfig
  pub log : LogConfig
  pub metrics : MetricsConfig
  pub kubernetes : KubernetesConfig
  pub global_ip_replacement_list : GlobalIpReplacementList
  pub load_balancers : List LoadBalancerConfig
  pub request_pool_size : ℤ
  pub allow_empty_upstream : Bool
  pub default_backend : Option DefaultBackendConfig

-- time.Second
abbrev pub seconds : ℕ → ℤ
seconds n = pos (n * 1000000000)
