-- ===== src/Validator/Composite.antt =====
-- `CompositeValidator` of internal/adapters/validator/validator.go.
pub mod Laws
use mlb_controller.Base.{List, [], ◌∷◌, Option, none, some}
use mlb_controller.Domain.Config.{Config}
use mlb_controller.Validator.Settings.{
  SettingsError, validate_global_config, validate_leader_election, validate_log, validate_metrics,
  validate_kubernetes,
}
use mlb_controller.Validator.IpReplacement.{GlobalListError, validate_global_list}
use mlb_controller.Validator.LoadBalancer.{LoadBalancerError, validate_load_balancers}
use mlb_controller.Validator.Adapters.{AdapterError, validate_nginx, validate_envoy}

pub data ConfigError : Type 0 where
  in_settings : SettingsError → ConfigError
  in_global_list : GlobalListError → ConfigError
  in_load_balancers : LoadBalancerError → ConfigError
  in_adapters : AdapterError → ConfigError

abbrev pub Validator : Type 0
Validator = Config → Option ConfigError

unfoldable pub wrap {ℓ} : {E : Type ℓ} → (E → ConfigError) → Option E → Option ConfigError
wrap f none = none
wrap f (some e) = some (f e)

-- The validators in the order of `NewCompositeValidator`.
unfoldable pub validators : List Validator
unfolding wrap
validators =
    (λ cfg. wrap in_settings (validate_global_config cfg))
    ∷ (λ cfg. wrap in_settings (validate_leader_election cfg.leader_election))
    ∷ (λ cfg. wrap in_settings (validate_log cfg.log))
    ∷ (λ cfg. wrap in_settings (validate_metrics cfg.metrics))
    ∷ (λ cfg. wrap in_settings (validate_kubernetes cfg.kubernetes))
    ∷ (λ cfg. wrap in_global_list (validate_global_list cfg))
    ∷ (λ cfg. wrap in_load_balancers (validate_load_balancers cfg))
    ∷ (λ cfg. wrap in_adapters (validate_nginx cfg.load_balancers))
    ∷ (λ cfg. wrap in_adapters (validate_envoy cfg.load_balancers))
    ∷ []

abbrev pub or_config : Option ConfigError → Option ConfigError → Option ConfigError
or_config (some e) rest = some e
or_config none rest = rest

unfoldable pub run_validators : List Validator → Config → Option ConfigError
run_validators [] cfg = none
run_validators (v ∷ vs) cfg = or_config (v cfg) (run_validators vs cfg)

-- `none` stands for a nil error.
unfoldable pub validate : Config → Option ConfigError
unfolding run_validators validators
validate cfg = run_validators validators cfg
