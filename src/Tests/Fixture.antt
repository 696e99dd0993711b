-- ===== src/Tests/Fixture.antt =====
-- A small cluster: one node, one ready pod, two services of one upstream, and one load balancer.
use mlb_controller.Base.{
  Bool, true, false, List, [], ◌∷◌, none, Str, codes, pos, ◌==◌, str_eq, if◌then◌else◌,
}
use mlb_controller.Domain.Config.{nginx, NginxConfig, Config, seconds}
use mlb_controller.Domain.Model.{Service, Pod, Node, Backend, Upstream}
use mlb_controller.Controller.Env.{
  Env, Controller, LoadBalancerAdapter, Result, ok, err, port_error,
}

abbrev pub nginx_config : NginxConfig
nginx_config = record {
  lb_type = codes "nginx";
  name = codes "l";
  ip_replacement = false;
  ip_replacement_list = record { nets = []; ips = []; global_nets = []; global_ips = [] };
  addresses = [];
  list_api = codes "list";
  add_api = codes "add";
  remove_api = codes "remove";
  upstream_sync_period = seconds 10;
  fail_timeout = seconds 1;
  request_timeout = seconds 1;
  protocol = codes "http";
  hostname = [];
  cert_path = [];
  key_path = [];
  ca_path = [];
  cert = [];
  key = [];
  ca = [];
  request_pool_size = pos 1;
  prune_orphans = true;
  allow_empty_upstream = false;
  default_backend = none;
}

abbrev pub config : Config
config = record {
  global_upstream_sync_period = seconds 10;
  leader_election = record {
    enabled = false;
    lease_name = [];
    lease_namespace = [];
    lease_duration = seconds 15;
    renew_deadline = seconds 10;
    retry_period = seconds 2;
  };
  log = record { enabled = true; level = codes "info"; format = codes "json" };
  metrics = record { enabled = true; port = pos 9090; uri = codes "/metrics" };
  kubernetes = record { resync_period = seconds 30; kubernetes_config = [] };
  global_ip_replacement_list = record { net = []; ip = [] };
  load_balancers = nginx nginx_config ∷ [];
  request_pool_size = pos 1;
  allow_empty_upstream = false;
  default_backend = none;
}

abbrev pub service : Str → Service
service name = record {
  name = name;
  namespace = codes "n";
  labels = (codes "mlb-loadbalancer-name", codes "l") ∷ (codes "mlb-upstream-name", codes "u") ∷ [];
  selector = (codes "app", codes "web") ∷ [];
  service_type = codes "NodePort";
  node_port = pos 80;
}

abbrev pub pod : Pod
pod = record {
  name = codes "p";
  namespace = codes "n";
  node_name = codes "m";
  ip = codes "1.1.1.1";
  status = codes "Running";
  ready = true;
  labels = (codes "app", codes "web") ∷ [];
}

abbrev pub node : Node
node = record {
  name = codes "m";
  cluster_ip = [];
  internal_ip = codes "10.0.0.1";
  external_ip = [];
}

abbrev pub adapter : LoadBalancerAdapter
adapter = record { sync_upstream = λ up. ok tt; sync_all_upstreams = λ m. ok tt }

-- The cluster has the services that are listed; a service is found by its name.
abbrev pub env : List Service → Result (List Pod) → Env
env services pods = record {
  k8s_client = record {
    get_pods_for_selector = λ namespace selector. pods;
    get_node_by_name = λ name. ok node;
    get_service =
        λ namespace name. if name == codes "a" then ok (service name) else err (port_error name);
    list_services = ok services;
    has_synced = true;
  };
  load_balancers = (codes "l", adapter) ∷ [];
  config = config;
}

-- The controller before anything has happened.
abbrev pub start : Controller
start = record {
  state = record { services = []; pods = []; nodes = []; upstreams = [] };
  last_known_services = [];
  effects = [];
}

abbrev pub backend : Str → Backend
backend ip = record { ip = ip; port = pos 80; weight = pos 1 }

abbrev pub upstream : Bool → List Backend → Upstream
upstream preserve backends = record {
  name = codes "u";
  load_balancer = codes "l";
  backends = backends;
  lb_type = codes "nginx";
  config = none;
  preserve_existing_backends = preserve;
}
