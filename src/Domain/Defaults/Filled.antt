-- ===== src/Domain/Defaults/Filled.antt =====
-- What `ApplyDefaultValues` of internal/domain/config/default.go sets, field by field.
use mlb_controller.Base.{◌||◌, ◌≡◌, ◌≢◌, ◌⊎◌, List, [], ◌∷◌, none, codes, pos, str_eq, int_eq}
use mlb_controller.Domain.Config.{Config, LoadBalancerConfig, nginx, envoy, seconds}

-- `y` is `x`, or `d` where `x` is not set.
abbrev pub Filled {ℓ} : {A : Type ℓ} → A → A → A → A → Type ℓ
Filled unset x d y = ((x ≡ unset) × (y ≡ d)) ⊎ ((x ≢ unset) × (y ≡ x))

-- The global settings, from the ones in the file to the ones in use.
abbrev pub AreFilled : Config → Config → Type 0
AreFilled c d =
    Filled (pos 0) c.global_upstream_sync_period (seconds 10) d.global_upstream_sync_period
    × Filled [] c.leader_election.lease_name (codes "mlb-controller-lease")
        d.leader_election.lease_name
    × Filled [] c.leader_election.lease_namespace (codes "default")
        d.leader_election.lease_namespace
    × Filled (pos 0) c.leader_election.lease_duration (seconds 15) d.leader_election.lease_duration
    × Filled (pos 0) c.leader_election.renew_deadline (seconds 10) d.leader_election.renew_deadline
    × Filled (pos 0) c.leader_election.retry_period (seconds 2) d.leader_election.retry_period
    × Filled [] c.log.level (codes "info") d.log.level
    × Filled [] c.log.format (codes "json") d.log.format
    × Filled (pos 0) c.metrics.port (pos 9090) d.metrics.port
    × Filled [] c.metrics.uri (codes "/metrics") d.metrics.uri
    × Filled (pos 0) c.kubernetes.resync_period (seconds 30) d.kubernetes.resync_period
    × Filled (pos 0) c.request_pool_size (pos 10) d.request_pool_size
    × (d.leader_election.enabled ≡ c.leader_election.enabled)
    × (d.metrics.enabled ≡ c.metrics.enabled)
    × (d.allow_empty_upstream ≡ c.allow_empty_upstream)
    × (d.default_backend ≡ c.default_backend)

-- The settings of a load balancer; `g` has the global ones in use.
abbrev pub Inherits : Config → LoadBalancerConfig → LoadBalancerConfig → Type 0
Inherits g (nginx c) (nginx d) =
    Filled (pos 0) c.upstream_sync_period g.global_upstream_sync_period d.upstream_sync_period
    × Filled (pos 0) c.fail_timeout (seconds 60) d.fail_timeout
    × Filled (pos 0) c.request_timeout (seconds 30) d.request_timeout
    × Filled (pos 0) c.request_pool_size g.request_pool_size d.request_pool_size
    × (d.allow_empty_upstream ≡ (c.allow_empty_upstream || g.allow_empty_upstream))
    × Filled none c.default_backend g.default_backend d.default_backend
    × (d.name ≡ c.name)
    × (d.addresses ≡ c.addresses)
Inherits g (envoy c) (envoy d) =
    Filled (pos 0) c.upstream_sync_period g.global_upstream_sync_period d.upstream_sync_period
    × Filled (pos 0) c.request_timeout (seconds 30) d.request_timeout
    × Filled (pos 0) c.request_pool_size g.request_pool_size d.request_pool_size
    × (d.allow_empty_upstream ≡ (c.allow_empty_upstream || g.allow_empty_upstream))
    × Filled none c.default_backend g.default_backend d.default_backend
    × (d.name ≡ c.name)
    × (d.addresses ≡ c.addresses)
Inherits g (nginx c) (envoy d) = ⊥
Inherits g (envoy c) (nginx d) = ⊥

abbrev pub AllInherit : Config → List LoadBalancerConfig → List LoadBalancerConfig → Type 0
AllInherit g [] [] = Unit
AllInherit g (lb ∷ lbs) (made ∷ rest) = Inherits g lb made × AllInherit g lbs rest
AllInherit g [] (made ∷ rest) = ⊥
AllInherit g (lb ∷ lbs) [] = ⊥
