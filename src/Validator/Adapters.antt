-- ===== src/Validator/Adapters.antt =====
-- `NginxValidator` and `EnvoyValidator`.
use mlb_controller.Base.{
  Bool, not, ◌&&◌, List, [], ◌∷◌, Option, none, some, Str, codes, pos, ◌==◌, str_eq, ltb_ℤ,
  if◌then◌else◌,
}
use mlb_controller.Base.Text.{has_prefix}
use mlb_controller.Net.Url.{is_path_url}
use mlb_controller.Domain.Config.{LoadBalancerConfig, nginx, envoy, NginxConfig, EnvoyConfig}
use mlb_controller.Util.Validation.{is_valid_domain}

pub data AdapterError : Type 0 where
  protocol_not_http : Str → AdapterError
  hostname_required : AdapterError
  invalid_hostname : Str → AdapterError
  list_api_required : AdapterError
  add_api_required : AdapterError
  remove_api_required : AdapterError
  invalid_list_api : AdapterError
  invalid_add_api : AdapterError
  invalid_remove_api : AdapterError
  negative_sync_period : AdapterError
  negative_fail_timeout : AdapterError
  negative_request_timeout : AdapterError
  protocol_not_grpc : Str → AdapterError

unfoldable pub is_valid_relative_uri : Str → Bool
unfolding is_path_url has_prefix
is_valid_relative_uri s = has_prefix s (codes "/") && is_path_url s

unfoldable pub check_timeouts : NginxConfig → Option AdapterError
check_timeouts lb =
    if ltb_ℤ lb.upstream_sync_period (pos 0)
    then some negative_sync_period
    else if ltb_ℤ lb.fail_timeout (pos 0)
    then some negative_fail_timeout
    else if ltb_ℤ lb.request_timeout (pos 0)
    then some negative_request_timeout
    else none

unfoldable pub check_apis : NginxConfig → Option AdapterError
check_apis lb =
    if lb.list_api == []
    then some list_api_required
    else if lb.add_api == []
    then some add_api_required
    else if lb.remove_api == []
    then some remove_api_required
    else if not (is_valid_relative_uri lb.list_api)
    then some invalid_list_api
    else if not (is_valid_relative_uri lb.add_api)
    then some invalid_add_api
    else if not (is_valid_relative_uri lb.remove_api)
    then some invalid_remove_api
    else none

unfoldable pub check_protocol : NginxConfig → Option AdapterError
check_protocol lb =
    if not (lb.protocol == codes "http") && not (lb.protocol == codes "https")
    then some (protocol_not_http lb.protocol)
    else if lb.protocol == codes "https" && not (is_valid_domain lb.hostname)
    then some (if lb.hostname == [] then hostname_required else invalid_hostname lb.hostname)
    else none

abbrev pub or_adapter : Option AdapterError → Option AdapterError → Option AdapterError
or_adapter (some e) rest = some e
or_adapter none rest = rest

unfoldable pub validate_nginx_config : NginxConfig → Option AdapterError
unfolding check_protocol check_apis check_timeouts
validate_nginx_config lb =
    or_adapter (check_protocol lb) (or_adapter (check_apis lb) (check_timeouts lb))

unfoldable pub validate_nginx : List LoadBalancerConfig → Option AdapterError
unfolding validate_nginx_config
validate_nginx [] = none
validate_nginx (nginx c ∷ lbs) = or_adapter (validate_nginx_config c) (validate_nginx lbs)
validate_nginx (envoy c ∷ lbs) = validate_nginx lbs

unfoldable pub validate_envoy_config : EnvoyConfig → Option AdapterError
validate_envoy_config lb =
    if not (lb.protocol == codes "grpc")
    then some (protocol_not_grpc lb.protocol)
    else if ltb_ℤ lb.upstream_sync_period (pos 0)
    then some negative_sync_period
    else if ltb_ℤ lb.request_timeout (pos 0)
    then some negative_request_timeout
    else none

unfoldable pub validate_envoy : List LoadBalancerConfig → Option AdapterError
unfolding validate_envoy_config
validate_envoy [] = none
validate_envoy (nginx c ∷ lbs) = validate_envoy lbs
validate_envoy (envoy c ∷ lbs) = or_adapter (validate_envoy_config c) (validate_envoy lbs)
