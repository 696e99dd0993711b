-- ===== src/Validator/Settings.antt =====
-- The validators of the settings that do not belong to one kind of load balancer:
-- `GlobalConfigValidator`, `LeaderElectionValidator`, `LogValidator`, `MetricsValidator` and
-- `KubernetesValidator`.
use mlb_controller.Base.{
  true, false, not, ◌&&◌, ◌||◌, List, [], ◌∷◌, Option, none, some, Str, codes, ℤ, pos, ◌+◌, ◌==◌,
  nat_eq, str_eq, leb, ltb_ℤ, leb_ℤ, any, if◌then◌else◌,
}
use mlb_controller.Domain.Config.{
  Config, LoadBalancerConfig, DefaultBackendConfig, LeaderElectionConfig, LogConfig, MetricsConfig,
  KubernetesConfig, get_name, get_request_pool_size, get_request_time_out,
}
use mlb_controller.Util.Validation.{is_valid_ip, is_valid_port}

pub data SettingsError : Type 0 where
  request_pool_size_out_of_range : ℤ → SettingsError
  negative_sync_period : SettingsError
  invalid_global_default_ip : Str → SettingsError
  invalid_global_default_port : ℤ → SettingsError
  balancer_pool_size_out_of_range : Str → ℤ → SettingsError
  request_time_out_not_positive : Str → ℤ → SettingsError
  lease_name_required : SettingsError
  lease_namespace_required : SettingsError
  lease_duration_not_positive : SettingsError
  renew_deadline_not_positive : SettingsError
  retry_period_not_positive : SettingsError
  lease_not_above_renew : ℤ → ℤ → SettingsError
  renew_not_above_retry : ℤ → ℤ → SettingsError
  unknown_log_level : SettingsError
  unknown_log_format : SettingsError
  metrics_port_out_of_range : SettingsError
  metrics_uri_required : SettingsError
  negative_resync_period : SettingsError

abbrev pub or_setting : Option SettingsError → Option SettingsError → Option SettingsError
or_setting (some e) rest = some e
or_setting none rest = rest

unfoldable pub check_default_backend : Option DefaultBackendConfig → Option SettingsError
check_default_backend none = none
check_default_backend (some d) =
    if not (is_valid_ip d.ip)
    then some (invalid_global_default_ip d.ip)
    else if not (is_valid_port d.port)
    then some (invalid_global_default_port d.port)
    else none

unfoldable pub check_pools : List LoadBalancerConfig → Option SettingsError
check_pools [] = none
check_pools (lb ∷ lbs) =
    if ltb_ℤ (get_request_pool_size lb) (pos 1) || ltb_ℤ (pos 100) (get_request_pool_size lb)
    then some (balancer_pool_size_out_of_range (get_name lb) (get_request_pool_size lb))
    else if leb_ℤ (get_request_time_out lb) (pos 0)
    then some (request_time_out_not_positive (get_name lb) (get_request_time_out lb))
    else check_pools lbs

unfoldable pub validate_global_config : Config → Option SettingsError
unfolding check_default_backend check_pools
validate_global_config cfg =
    if ltb_ℤ cfg.request_pool_size (pos 1) || ltb_ℤ (pos 100) cfg.request_pool_size
    then some (request_pool_size_out_of_range cfg.request_pool_size)
    else if ltb_ℤ cfg.global_upstream_sync_period (pos 0)
    then some negative_sync_period
    else or_setting (check_default_backend cfg.default_backend) (check_pools cfg.load_balancers)

unfoldable pub validate_leader_election : LeaderElectionConfig → Option SettingsError
validate_leader_election c =
    if not c.enabled
    then none
    else if c.lease_name == []
    then some lease_name_required
    else if c.lease_namespace == []
    then some lease_namespace_required
    else if leb_ℤ c.lease_duration (pos 0)
    then some lease_duration_not_positive
    else if leb_ℤ c.renew_deadline (pos 0)
    then some renew_deadline_not_positive
    else if leb_ℤ c.retry_period (pos 0)
    then some retry_period_not_positive
    else if leb_ℤ c.lease_duration c.renew_deadline
    then some (lease_not_above_renew c.lease_duration c.renew_deadline)
    else if leb_ℤ c.renew_deadline c.retry_period
    then some (renew_not_above_retry c.renew_deadline c.retry_period)
    else none

-- strings.ToLower, as far as a comparison with an ASCII word tells. The other letters whose small
-- letter is in ASCII are U+0130 and U+212A, with the small letters `i` and `k`.
unfoldable pub to_lower : Str → Str
to_lower [] = []
to_lower (c ∷ []) = (if leb 65 c && leb c 90 then c + 32 else c) ∷ []
to_lower (c ∷ d ∷ []) = elim (c == 196 && d == 176) [
  | true ↦ b'i' ∷ []
  | false ↦ (if leb 65 c && leb c 90 then c + 32 else c) ∷ to_lower (d ∷ [])
]
to_lower (c ∷ d ∷ e ∷ s) = elim (c == 196 && d == 176) [
  | true ↦ b'i' ∷ to_lower (e ∷ s)
  | false ↦ elim (c == 226 && d == 132 && e == 170) [
    | true ↦ b'k' ∷ to_lower s
    | false ↦ (if leb 65 c && leb c 90 then c + 32 else c) ∷ to_lower (d ∷ e ∷ s)
  ]
]

abbrev log_levels : List Str
log_levels = codes "debug" ∷ codes "info" ∷ codes "warn" ∷ codes "error" ∷ codes "fatal" ∷ []

abbrev log_formats : List Str
log_formats = codes "json" ∷ codes "console" ∷ []

unfoldable pub validate_log : LogConfig → Option SettingsError
unfolding to_lower
validate_log c =
    if not c.enabled
    then none
    else if not (any (λ w. to_lower c.level == w) log_levels)
    then some unknown_log_level
    else if not (any (λ w. to_lower c.format == w) log_formats)
    then some unknown_log_format
    else none

unfoldable pub validate_metrics : MetricsConfig → Option SettingsError
validate_metrics c =
    if not c.enabled
    then none
    else if ltb_ℤ c.port (pos 0) || ltb_ℤ (pos 65535) c.port
    then some metrics_port_out_of_range
    else if c.uri == []
    then some metrics_uri_required
    else none

unfoldable pub validate_kubernetes : KubernetesConfig → Option SettingsError
validate_kubernetes c = if ltb_ℤ c.resync_period (pos 0) then some negative_resync_period else none
