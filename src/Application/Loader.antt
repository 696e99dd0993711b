-- ===== src/Application/Loader.antt =====
-- `ViperLoader` of internal/adapters/config/viper.go. Viper reads the file and the environment, and
-- mapstructure decodes: both are parameters.
pub mod Laws
pub mod Tickers
use mlb_controller.Base.{
  ℕ, ◌+◌, Bool, true, false, ◌&&◌, List, [], ◌∷◌, ◌++◌, Option, none, some, Str, codes, ℤ, ◌==◌,
  str_eq, if◌then◌else◌,
}
use mlb_controller.Base.Fallible.{Fallible, success, failure, ◌>>=◌, or_failure}
use mlb_controller.Domain.Config.{
  Config, LoadBalancerConfig, nginx, envoy, NginxConfig, EnvoyConfig, DefaultBackendConfig,
  LeaderElectionConfig, LogConfig, MetricsConfig, KubernetesConfig, GlobalIpReplacementList,
}
use mlb_controller.Domain.Defaults.{apply_default_values}
use mlb_controller.Validator.Settings.{to_lower}
use mlb_controller.Validator.Composite.{ConfigError, validate}
use mlb_controller.Application.Certificates.{CertificateContent, CertError, Checked}

-- The decoded settings; a load balancer is still a map from keys to values.
pub record RawConfig (Raw : Type 0) : Type 0 where
  pub global_upstream_sync_period : ℤ
  pub leader_election : LeaderElectionConfig
  pub log : LogConfig
  pub metrics : MetricsConfig
  pub kubernetes : KubernetesConfig
  pub global_ip_replacement_list : GlobalIpReplacementList
  pub load_balancers : List Raw
  pub request_pool_size : ℤ
  pub allow_empty_upstream : Bool
  pub default_backend : Option DefaultBackendConfig

pub data LoadError : Type 0 where
  context_error : LoadError
  -- The file cannot be read or decoded.
  read_error : Str → LoadError
  type_missing : LoadError
  unmarshal_nginx : LoadError
  unmarshal_envoy : LoadError
  unsupported_type : LoadError
  certificates_failed : Str → CertError → LoadError
  invalid_config : ConfigError → LoadError

abbrev pub Loaded : Type 0 → Type 0
Loaded A = Fallible LoadError A

-- What the loader uses: whether the context has ended, the settings that Viper and mapstructure find
-- with the defaults that are registered, the text under `type` of a raw load balancer, the decoding of
-- one, and the loader of certificates.
pub record Sources (Raw : Type 0) : Type 0 where
  pub context_ended : Bool
  pub settings : Loaded (RawConfig Raw)
  pub type_text : Raw → Option Str
  pub decode_nginx : Raw → Option NginxConfig
  pub decode_envoy : Raw → Option EnvoyConfig
  pub load_certificates : Str → Str → Str → Str → Checked CertificateContent

abbrev name_error : Str → Checked CertificateContent → Loaded CertificateContent
name_error name (success c) = success c
name_error name (failure e) = failure (certificates_failed name e)

module _ {Raw : Type 0} (src : Sources Raw) where
  unfoldable pub load_certificates_for : Str → Str → Str → Str → Str → Loaded CertificateContent
  load_certificates_for name cert_path key_path ca_path hostname =
      if cert_path == [] && key_path == [] && ca_path == []
      then success (record { cert = []; key = []; ca = [] })
      else name_error name (src.load_certificates cert_path key_path ca_path hostname)

  unfoldable pub load_nginx : Str → Raw → Loaded LoadBalancerConfig
  unfolding load_certificates_for
  load_nginx type_str raw = do
    c ← or_failure unmarshal_nginx (src.decode_nginx raw)
    content ← load_certificates_for c.name c.cert_path c.key_path c.ca_path c.hostname
    success (
        nginx (record c {
          cert = content.cert;
          key = content.key;
          ca = content.ca;
          lb_type = type_str;
        }))

  unfoldable pub load_envoy : Str → Raw → Loaded LoadBalancerConfig
  unfolding load_certificates_for
  load_envoy type_str raw = do
    c ← or_failure unmarshal_envoy (src.decode_envoy raw)
    content ← load_certificates_for c.name c.cert_path c.key_path c.ca_path c.hostname
    success (
        envoy (record c {
          cert = content.cert;
          key = content.key;
          ca = content.ca;
          lb_type = type_str;
        }))

  unfoldable pub load_typed : Str → Raw → Loaded LoadBalancerConfig
  unfolding load_nginx load_envoy
  load_typed type_str raw =
      if type_str == codes "nginx"
      then load_nginx type_str raw
      else if type_str == codes "envoy"
      then load_envoy type_str raw
      else failure unsupported_type

  -- One round of the loop.
  unfoldable pub load_balancer : Raw → Loaded LoadBalancerConfig
  unfolding load_typed to_lower
  load_balancer raw = do
    type_raw ← or_failure type_missing (src.type_text raw)
    load_typed (to_lower type_raw) raw

  unfoldable pub load_balancers : List Raw → Loaded (List LoadBalancerConfig)
  unfolding load_balancer
  load_balancers [] = success []
  load_balancers (raw ∷ raws) = do
    lb ← load_balancer raw
    lbs ← load_balancers raws
    success (lb ∷ lbs)

  unfoldable pub config_of : RawConfig Raw → List LoadBalancerConfig → Config
  config_of raw lbs = record {
    global_upstream_sync_period = raw.global_upstream_sync_period;
    leader_election = raw.leader_election;
    log = raw.log;
    metrics = raw.metrics;
    kubernetes = raw.kubernetes;
    global_ip_replacement_list = raw.global_ip_replacement_list;
    load_balancers = lbs;
    request_pool_size = raw.request_pool_size;
    allow_empty_upstream = raw.allow_empty_upstream;
    default_backend = raw.default_backend;
  }

  unfoldable pub accept : Config → Option ConfigError → Loaded Config
  accept cfg none = success cfg
  accept cfg (some e) = failure (invalid_config e)

  unfoldable pub load_config : Loaded Config
  unfolding load_balancers config_of accept
  load_config = if src.context_ended then failure context_error else (do
    raw ← src.settings
    lbs ← load_balancers raw.load_balancers
    let cfg : Config = apply_default_values (config_of raw lbs)
    accept cfg (validate cfg))
