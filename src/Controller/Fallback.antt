-- ===== src/Controller/Fallback.antt =====
-- The fallback for an upstream without backends, which `syncUpstreamsForService` and
-- `syncSingleLoadBalancer` share: the default backend, or else the safety net.
use mlb_controller.Base.{
  Bool, true, false, not, List, [], ◌∷◌, Option, none, some, pos, leb_ℤ, ◌==◌, str_eq,
  if◌then◌else◌,
}
use mlb_controller.Domain.Config.{
  LoadBalancerConfig, DefaultBackendConfig, get_default_backend, get_allow_empty_upstream,
}
use mlb_controller.Domain.Model.{Backend}
use mlb_controller.Controller.Env.{Env}

pub data Fallback : Type 0 where
  push : List Backend → Fallback
  preserve : Fallback

abbrev own_default : Option LoadBalancerConfig → Option DefaultBackendConfig
own_default none = none
own_default (some lb) = get_default_backend lb

-- The load balancer's own default backend comes before the global one.
unfoldable pub default_backend : Env → Option LoadBalancerConfig → Option DefaultBackendConfig
default_backend env lb = elim (own_default lb) [
  | some d ↦ some d
  | none ↦ env.config.default_backend
]

abbrev own_allow : Option LoadBalancerConfig → Bool
own_allow none = false
own_allow (some lb) = get_allow_empty_upstream lb

unfoldable pub allow_empty : Env → Option LoadBalancerConfig → Bool
allow_empty env lb = if own_allow lb then true else env.config.allow_empty_upstream

-- A weight of zero or less becomes 1.
unfoldable pub default_server : DefaultBackendConfig → Backend
default_server d = record {
  ip = d.ip;
  port = d.port;
  weight = if leb_ℤ d.weight (pos 0) then pos 1 else d.weight;
}

unfoldable pub without_default : Env → Option LoadBalancerConfig → Fallback
unfolding allow_empty
without_default env lb = if not (allow_empty env lb) then preserve else push []

unfoldable pub fallback : Env → Option LoadBalancerConfig → Fallback
unfolding default_backend default_server without_default
fallback env lb = elim (default_backend env lb) [
  | none ↦ without_default env lb
  | some d ↦ if not (d.ip == []) then push (default_server d ∷ []) else without_default env lb
]

-- What is done with the backends that were found.
unfoldable pub resolve : Env → Option LoadBalancerConfig → List Backend → Fallback
resolve env lb [] = fallback env lb
resolve env lb (b ∷ bs) = push (b ∷ bs)
