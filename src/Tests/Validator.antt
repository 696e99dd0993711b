-- ===== src/Tests/Validator.antt =====
-- The validator of the load balancers on a configuration.
use mlb_controller.Base.{
  Bool, true, false, ◌≡◌, ◌≢◌, refl, List, [], ◌∷◌, ◌++◌, Option, none, some, codes, pos, str_eq,
  All, ◌↔◌,
}
use mlb_controller.Domain.Config.{nginx, get_name, Config, LeaderElectionConfig}
use mlb_controller.Controller.Env.{ok, get_load_balancer_config}
use mlb_controller.Validator.LoadBalancer.{validate_load_balancers}
use mlb_controller.Validator.LoadBalancer.Laws.{accepted-found}
use mlb_controller.Validator.IpReplacement.{validate_global_list}
use mlb_controller.Validator.Settings.{validate_leader_election}
use mlb_controller.Validator.Adapters.{is_valid_relative_uri}
use mlb_controller.Validator.Composite.{validate}
use mlb_controller.Validator.Composite.Laws.{IsBounded, HasEndpoint, accepted_config}
use mlb_controller.Tests.Fixture.{env, config, nginx_config}

accepted : validate_load_balancers config ≡ none
unfolding validate_load_balancers mlb_controller.Base.str_beq
accepted = refl

accepted-found_example :
    (get_load_balancer_config (env [] (ok [])) (get_name (nginx nginx_config))
      ≡ some (nginx nginx_config))
    × (get_name (nginx nginx_config) ≢ [])
accepted-found_example = accepted-found (env [] (ok [])) [] (nginx nginx_config) [] refl accepted

-- The configuration of the fixture with relative paths for the requests.
abbrev pub served : Config
served = record config {
  load_balancers =
      nginx (record nginx_config {
        list_api = codes "/u?list=";
        add_api = codes "/u?add=";
        remove_api = codes "/u?remove=";
      })
      ∷ [];
}

served_accepted : validate served ≡ none
unfolding validate validate_load_balancers validate_global_list mlb_controller.Base.str_beq
    mlb_controller.Validator.Settings.validate_global_config validate_leader_election
    mlb_controller.Validator.Settings.validate_log
    mlb_controller.Validator.Settings.validate_metrics
    mlb_controller.Validator.Settings.validate_kubernetes
    mlb_controller.Validator.Adapters.validate_nginx is_valid_relative_uri
    mlb_controller.Validator.Adapters.validate_envoy
served_accepted = refl

accepted_config_example :
    All IsBounded served.load_balancers
    × All HasEndpoint served.load_balancers
    × (validate_global_list served ≡ none)
    × (validate_load_balancers served ≡ none)
accepted_config_example = accepted_config served served_accepted

abbrev election : LeaderElectionConfig
election = record {
  enabled = true;
  lease_name = codes "lease";
  lease_namespace = codes "n";
  lease_duration = pos 15;
  renew_deadline = pos 10;
  retry_period = pos 2;
}

-- A path, one with a query, and texts that name a host or have a broken escape.
relative_uris :
    (is_valid_relative_uri (codes "/u?list=") ≡ true)
    × (is_valid_relative_uri (codes "//h/u") ≡ false)
    × (is_valid_relative_uri (codes "//a@/u") ≡ true)
    × (is_valid_relative_uri (codes "/%4") ≡ false)
    × (is_valid_relative_uri (codes "u") ≡ false)
unfolding is_valid_relative_uri mlb_controller.Base.str_beq
relative_uris = (refl, refl, refl, refl, refl)
