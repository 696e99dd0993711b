-- ===== src/Tests/Application.antt =====
-- The process, from its configuration to its end.
use mlb_controller.Base.{
  ℕ, suc, ◌≤◌, ◌≡◌, ◌≢◌, refl, ◌↔◌, inl, inr, Bool, true, false, List, [], ◌∷◌, Option, none, some,
  Str, codes, pos, All, str_eq, str_beq, not, any, ◌==◌, if◌then◌else◌,
}
use mlb_controller.Base.GoMap
use mlb_controller.Base.GoMap.{GoMap}
use mlb_controller.Base.Fallible.{success}
use mlb_controller.Net.Tls.{Tls}
use mlb_controller.Domain.Config.{Config, NginxConfig, LoadBalancerConfig, nginx}
use mlb_controller.Domain.Defaults.{apply_default_values}
use mlb_controller.Nginx.Client.{NginxClient}
use mlb_controller.Validator.Composite.{validate}
use mlb_controller.Controller.Env.{ok}
use mlb_controller.Controller.Tickers.{IsPositive, ticker_periods}
use mlb_controller.Application.System.{
  System, launched, Phase, stopped, stopping, returned, Reach, start, later, begin, acquire, mark,
  show, launch, lose, unmark, hide, cancel, complete, shown, Leads, mark_leader, show_leader,
  launch_controller, unmark_leader, hide_leader, cancel_app,
}
use mlb_controller.Application.System.Invariant.{
  is_called, bit, is_early, is_settled, is_over, is_returned,
}
use mlb_controller.Application.System.Laws.{one_controller}
use mlb_controller.Application.System.Ending.{lost_lease_exits}
use mlb_controller.Application.Certificates.{Files, load}
use mlb_controller.Application.Loader.{Sources, load_config}
use mlb_controller.Application.Loader.Laws.{IsTyped, load_config_sound}
use mlb_controller.Application.Loader.Tickers.{load_config-ticker_periods}
use mlb_controller.Application.Election.{ClientGo}
use mlb_controller.Application.Container.Startup.{IsReachable, starts_iff}
use mlb_controller.Application.Container.{
  Container, new_container, create_adapters, create_load_balancer_adapter,
}
use mlb_controller.Application.Container.Laws.{IsNginx, startup-found}
use mlb_controller.Application.Metrics.{ServeMux, Prometheus}
use mlb_controller.Tests.Fixture.{nginx_config, env}
use mlb_controller.Tests.Validator.{served}

-- The lease is acquired, and the controller is started.
abbrev leader : System
leader = record launched {
  is_leader = true;
  metrics_leader = true;
  controllers = 1;
  election = Phase.leading;
  starting = complete;
}

leader-Reach : Reach true leader
unfolding mark_leader show_leader launch_controller
leader-Reach =
    later
      (later (later (later (later start (begin launched refl refl)) (acquire _ refl)) (mark _ refl))
        (show _ refl))
      (launch _ refl)

one_controller_example :
    (bit (is_called leader.starting) ≤ (if is_early leader.election then 0 else 1))
    × (leader.controllers ≤ bit (is_called leader.starting))
    × (bit leader.is_leader ≤ bit (is_called leader.starting))
    × (bit leader.metrics_leader ≤ bit (is_called leader.starting))
    × (bit (is_settled leader.election leader.starting) ≤ leader.controllers)
    × (bit (is_settled leader.election leader.starting) ≤ bit leader.is_leader)
    × (bit (is_settled leader.election leader.starting) ≤ bit leader.metrics_leader)
    × (bit (is_over leader.election) ≤ bit leader.cancelled)
    × (bit (is_returned leader.app) ≤ bit leader.cancelled)
one_controller_example = one_controller leader-Reach

-- The lease is lost before the metrics show the leadership: they show it when all is over.
abbrev stale : System
stale = record launched {
  is_leader = false;
  metrics_leader = true;
  controllers = 0;
  cancelled = true;
  election = stopped;
  starting = shown;
}

stale-Reach : Reach true stale
unfolding mark_leader show_leader unmark_leader hide_leader cancel_app
stale-Reach =
    later
      (later
        (later
          (later
            (later
              (later (later (later start (begin launched refl refl)) (acquire _ refl))
                (mark _ refl))
              (lose _ refl refl))
            (unmark _ refl))
          (hide _ refl))
        (cancel _ refl))
      (show _ refl)

lost_lease_exits_example :
    Leads true (λ t. t.app ≡ returned) (record leader { election = stopping })
lost_lease_exits_example = lost_lease_exits true (record leader { election = stopping }) (inr refl)

abbrev tls : Tls
tls = record {
  x509_key_pair = λ cert key. none;
  parse_certificate = λ leaf. none;
  append_certs_from_pem = λ pem. false;
  now = 0;
}

abbrev files : Files
files = record { exists = λ path. false; read_file = λ path. none }

abbrev balancer : NginxConfig
balancer = record nginx_config {
  lb_type = [];
  list_api = codes "/u?list=";
  add_api = codes "/u?add=";
  remove_api = codes "/u?remove=";
}

-- With the defaults of the leader election.
abbrev filled : Config
filled = record served {
  leader_election = record {
    enabled = false;
    lease_name = codes "mlb-controller-lease";
    lease_namespace = codes "default";
    lease_duration = served.leader_election.lease_duration;
    renew_deadline = served.leader_election.renew_deadline;
    retry_period = served.leader_election.retry_period;
  };
}

-- One load balancer, whose type is written in capitals.
abbrev sources : Sources NginxConfig
sources = record {
  context_ended = false;
  settings = success (record {
    global_upstream_sync_period = served.global_upstream_sync_period;
    leader_election = served.leader_election;
    log = served.log;
    metrics = served.metrics;
    kubernetes = served.kubernetes;
    global_ip_replacement_list = served.global_ip_replacement_list;
    load_balancers = balancer ∷ [];
    request_pool_size = served.request_pool_size;
    allow_empty_upstream = served.allow_empty_upstream;
    default_backend = none;
  });
  type_text = λ raw. some (codes "NGINX");
  decode_nginx = λ raw. some raw;
  decode_envoy = λ raw. none;
  load_certificates = load tls files;
}

sources_loaded : load_config sources ≡ success filled
unfolding load_config mlb_controller.Base.str_beq validate
    mlb_controller.Validator.Settings.validate_global_config apply_default_values
    mlb_controller.Domain.Defaults.or_default
    mlb_controller.Validator.Settings.validate_leader_election
    mlb_controller.Validator.Settings.validate_log mlb_controller.Domain.Defaults.or_default_str
    mlb_controller.Validator.Settings.validate_metrics
    mlb_controller.Validator.Settings.validate_kubernetes
    mlb_controller.Validator.IpReplacement.validate_global_list
    mlb_controller.Validator.LoadBalancer.validate_load_balancers
    mlb_controller.Validator.Adapters.validate_nginx
    mlb_controller.Validator.Adapters.is_valid_relative_uri
    mlb_controller.Validator.Adapters.validate_envoy
sources_loaded = refl

load_config_sound_example :
    (apply_default_values filled ≡ filled)
    × (validate filled ≡ none)
    × All (IsTyped tls) filled.load_balancers
load_config_sound_example = load_config_sound sources tls files refl filled sources_loaded

-- There is no load balancer to reconcile.
load_config-ticker_periods_example :
    All IsPositive
      (ticker_periods (record (env [] (ok [])) { load_balancers = []; config = filled }))
load_config-ticker_periods_example =
    load_config-ticker_periods sources tls files refl
      (record (env [] (ok [])) { load_balancers = []; config = filled }) sources_loaded

abbrev client_go : ClientGo
client_go = record { build_config = λ path. true; new_for_config = λ path. true }

starts_iff_example :
    ((container : Container) × (new_container tls client_go true sources ≡ success container)) ↔ (
      IsReachable client_go filled.kubernetes.kubernetes_config × All IsNginx filled.load_balancers)
starts_iff_example = starts_iff sources tls files client_go true filled refl sources_loaded

served_made : create_adapters tls filled.load_balancers [] ≡ success ((codes "l", []) ∷ [])
unfolding create_adapters mlb_controller.Base.str_beq GoMap.insert
served_made = refl

abbrev only : LoadBalancerConfig
only = nginx (record balancer { lb_type = codes "nginx" })

startup-found_example :
    (clients : List NginxClient) × (create_load_balancer_adapter tls only ≡ success clients)
    × (GoMap.lookup (codes "l") ((codes "l", []) ∷ []) ≡ some clients)
startup-found_example =
    startup-found sources tls files refl filled sources_loaded ((codes "l", []) ∷ []) [] only []
      served_made refl

abbrev prometheus : Prometheus
prometheus = record {
  metrics_config = record { enabled = true; port = pos 9090; uri = codes "healthz" };
  ready_checker = none;
  is_leader = false;
  serving = false;
  backends_total = [];
  sync_errors_total = [];
  sync_durations = [];
  sync_upstreams_total = 0;
}

-- A mux of plain patterns.
abbrev plain_mux : ServeMux
plain_mux pattern others = not (any (λ o. o == pattern) others)
