-- ===== src/Domain/Model.antt =====
-- internal/domain/model: what the controller knows of the cluster and of the load balancers.
use mlb_controller.Base.{Bool, List, Option, Str, ℤ}
use mlb_controller.Base.GoMap.{GoMap}
use mlb_controller.Domain.Config.{LoadBalancerConfig}

-- `port` is an `int32` and `weight` an `int`.
pub record Backend : Type 0 where
  pub ip : Str
  pub port : ℤ
  pub weight : ℤ

pub record Service : Type 0 where
  pub name : Str
  pub namespace : Str
  pub labels : GoMap Str
  pub selector : GoMap Str
  pub service_type : Str
  pub node_port : ℤ

pub record Pod : Type 0 where
  pub name : Str
  pub namespace : Str
  pub node_name : Str
  pub ip : Str
  pub status : Str
  pub ready : Bool
  pub labels : GoMap Str

pub record Node : Type 0 where
  pub name : Str
  pub cluster_ip : Str
  pub internal_ip : Str
  pub external_ip : Str

-- `Config` is nil where no load balancer has the name.
pub record Upstream : Type 0 where
  pub name : Str
  pub load_balancer : Str
  pub backends : List Backend
  pub lb_type : Str
  pub config : Option LoadBalancerConfig
  pub preserve_existing_backends : Bool

pub record ControllerState : Type 0 where
  pub services : GoMap Service
  pub pods : GoMap Pod
  pub nodes : GoMap Node
  pub upstreams : GoMap Upstream
