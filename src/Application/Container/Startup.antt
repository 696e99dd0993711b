-- ===== src/Application/Container/Startup.antt =====
-- When the program starts: `NewContainer` as a whole.
use mlb_controller.Base.{
  ◌≡◌, ◌↔◌, refl, sym, ap, ◌∙◌, ◌⊎◌, inl, inr, Bool, true, false, not, List, [], ◌∷◌, none, Str,
  codes, Bool-cases, All, arith, if◌then◌else◌,
}
use mlb_controller.Base.Fallible.{Fallible, success, failure, >>=-eq-success}
use mlb_controller.Base.GoMap.{GoMap}
use mlb_controller.Net.Tls.{Tls}
use mlb_controller.Domain.Config.{Config, KubernetesConfig, LeaderElectionConfig}
use mlb_controller.Nginx.Client.{NginxClient}
use mlb_controller.Application.Certificates.{Files, load}
use mlb_controller.Application.Loader.{Sources, load_config}
use mlb_controller.Application.Logging.{
  Logger, production_logger, zap_logger, info_level, json_encoder, new_logger,
}
use mlb_controller.Application.Election.{ClientGo, created, new_kubernetes_leader_election}
use mlb_controller.Application.Container.{
  Container, ContainerError, wrap_error, of_created, new_prometheus, new_kubernetes_adapter,
  create_adapters, with_config, new_container, kubernetes_failed, election_failed, adapters_failed,
}
use mlb_controller.Application.Container.Laws.{IsNginx, startup_iff}

-- client-go builds a configuration and a client from the path.
abbrev pub IsReachable : ClientGo → Str → Type 0
IsReachable go path = (go.build_config path ≡ true) × (go.new_for_config path ≡ true)

new_kubernetes_adapter_iff :
    (go : ClientGo) (k8s : KubernetesConfig)
    → (new_kubernetes_adapter go k8s ≡ success tt) ↔ IsReachable go k8s.kubernetes_config
unfolding new_kubernetes_adapter
new_kubernetes_adapter_iff go k8s = (to, λ (b, n). rw (b, n) refl)
  where
    to : new_kubernetes_adapter go k8s ≡ success tt → IsReachable go k8s.kubernetes_config
    to h = elim (Bool-cases (go.build_config k8s.kubernetes_config)) [
      | inr f ↦ absurd (cc (rw f at h))
      | inl b ↦ elim (Bool-cases (go.new_for_config k8s.kubernetes_config)) [
        | inr f ↦ absurd (cc (rw (b, f) at h))
        | inl n ↦ (b, n)
      ]
    ]

reachable-created :
    (go : ClientGo) (election : LeaderElectionConfig) (k8s : KubernetesConfig)
    → IsReachable go k8s.kubernetes_config
    → (client : Bool) × (new_kubernetes_leader_election go election k8s ≡ created client)
unfolding new_kubernetes_leader_election
reachable-created go election k8s (b, n) = elim (Bool-cases election.enabled) [
  | inl t ↦ (true, rw (t, b, n) refl)
  | inr f ↦ (false, rw f refl)
]

wrap_error-eq-success :
    {E A : Type 0} (f : E → ContainerError) (m : Fallible E A) {a : A}
    → wrap_error f m ≡ success a
    → m ≡ success a
wrap_error-eq-success f (failure e) h = cc
wrap_error-eq-success f (success a) h = cc

abbrev container_of : Bool → Logger → Config → GoMap (List NginxClient) → Container
container_of synced bootstrap cfg m = record {
  config = cfg;
  logger = production_logger bootstrap cfg.log;
  metrics = new_prometheus synced cfg.metrics;
  adapters = m;
}

with_config_iff :
    (tls : Tls) (go : ClientGo) (synced : Bool) (bootstrap : Logger) (cfg : Config)
    → ((container : Container) × (with_config tls go synced bootstrap cfg ≡ success container)) ↔ (
        IsReachable go cfg.kubernetes.kubernetes_config
        × ((m : GoMap (List NginxClient)) × (create_adapters tls cfg.load_balancers []
              ≡ success m)))
unfolding with_config
with_config_iff tls go synced bootstrap cfg = (
  λ (container, h).
      let (u, first, rest) =
        >>=-eq-success (wrap_error kubernetes_failed (new_kubernetes_adapter go cfg.kubernetes)) _
          h in
      let (client, second, others) =
        >>=-eq-success
          (wrap_error election_failed
            (of_created (new_kubernetes_leader_election go cfg.leader_election cfg.kubernetes)))
          _ rest in
      let (m, third, end) =
        >>=-eq-success (wrap_error adapters_failed (create_adapters tls cfg.load_balancers [])) _
          others in
      (
        (new_kubernetes_adapter_iff go cfg.kubernetes).0
            (wrap_error-eq-success kubernetes_failed _ first),
        (m, wrap_error-eq-success adapters_failed _ third),
      ),
  λ (reachable, (m, e)).
      let (client, c) = reachable-created go cfg.leader_election cfg.kubernetes reachable in
      (
        container_of synced bootstrap cfg m,
        rw ((new_kubernetes_adapter_iff go cfg.kubernetes).1 reachable, c, e) refl,
      ),
)

-- The bootstrap logger can always be made.
bootstrap_made :
    new_logger (codes "info") (codes "json") ≡ success (zap_logger info_level json_encoder)
unfolding new_logger mlb_controller.Base.str_beq
bootstrap_made = refl

-- Let the certificates come from `FileLoader`, and let the loader return a configuration. Then
-- `NewContainer` succeeds exactly if client-go makes a client with the path of that configuration and
-- every load balancer in it is of type nginx: an Envoy load balancer, which the validators accept, keeps
-- the program from starting, and no certificate does.
pub starts_iff :
    {Raw : Type 0} (src : Sources Raw) (tls : Tls) (files : Files) (go : ClientGo) (synced : Bool)
    (cfg : Config)
    → src.load_certificates ≡ load tls files
    → load_config src ≡ success cfg
    → ((container : Container) × (new_container tls go synced src ≡ success container))
      ↔ (IsReachable go cfg.kubernetes.kubernetes_config × All IsNginx cfg.load_balancers)
unfolding new_container
starts_iff src tls files go synced cfg from_files read =
    let made = with_config_iff tls go synced (zap_logger info_level json_encoder) cfg in
    let adapters = startup_iff src tls files from_files cfg read in
    (
      λ (container, h).
          let (reachable, filled) = made.0 (container, rw (bootstrap_made, read) at h) in
          (reachable, adapters.0 filled),
      λ (reachable, n).
          let (container, e) = made.1 (reachable, adapters.1 n) in
          (container, rw (bootstrap_made, read) e),
    )
