-- ===== src/Application/Election.antt =====
-- `KubernetesLeaderElection` of internal/adapters/leaderelection/kubernetes.go: what its operations
-- return. `Run` and the callbacks are steps of `System`.
use mlb_controller.Base.{Bool, true, false, not, [], Option, none, some, Str, if◌then◌else◌}
use mlb_controller.Domain.Config.{LeaderElectionConfig, KubernetesConfig}

pub data ElectionError : Type 0 where
  build_config_failed : Str → ElectionError
  create_client_failed : ElectionError
  create_elector_failed : ElectionError
  lease_lost : ElectionError

-- client-go: whether a configuration is built from the path, and a client from it.
pub record ClientGo : Type 0 where
  pub build_config : Str → Bool
  pub new_for_config : Str → Bool

pub data Created : Type 0 where
  -- Whether there is a client.
  created : Bool → Created
  refused : ElectionError → Created

unfoldable pub new_kubernetes_leader_election :
    ClientGo → LeaderElectionConfig → KubernetesConfig → Created
new_kubernetes_leader_election go leader_cfg k8s_cfg =
    if not leader_cfg.enabled
    then created false
    else if not (go.build_config k8s_cfg.kubernetes_config)
    then refused (build_config_failed k8s_cfg.kubernetes_config)
    else if not (go.new_for_config k8s_cfg.kubernetes_config)
    then refused create_client_failed
    else created true

-- The lease as the API server answers: the request fails, or the lease has a holder or none.
pub data Lease : Type 0 where
  unavailable : Lease
  held : Option Str → Lease

holder : Lease → Str
holder unavailable = []
holder (held none) = []
holder (held (some id)) = id

-- os.Hostname, without an error.
abbrev or_empty : Option Str → Str
or_empty none = []
or_empty (some id) = id

unfoldable pub get_leader_addr : LeaderElectionConfig → Bool → Option Str → Lease → Str
unfolding holder
get_leader_addr config is_leader hostname lease =
    if not config.enabled
    then or_empty hostname
    else if is_leader
    then or_empty hostname
    else holder lease
