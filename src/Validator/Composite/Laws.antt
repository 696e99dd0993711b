-- ===== src/Validator/Composite/Laws.antt =====
-- What an accepted configuration satisfies.
use mlb_controller.Base.{
  ◌≡◌, ◌≢◌, refl, ◌↔◌, ◌⊎◌, inl, inr, true, List, [], ◌∷◌, Option, none, some, codes, pos, leb_ℤ,
  ltb_ℤ, ◌==◌, str_eq, str_beq_iff, All, arith, Bool-cases,
}
use mlb_controller.Domain.Config.{
  Config, LeaderElectionConfig, LoadBalancerConfig, nginx, envoy, NginxConfig, EnvoyConfig,
  get_request_pool_size, get_request_time_out,
}
use mlb_controller.Util.Validation.{is_valid_domain}
use mlb_controller.Validator.IpReplacement.{validate_global_list}
use mlb_controller.Validator.LoadBalancer.{validate_load_balancers}
use mlb_controller.Validator.Settings.{
  SettingsError, or_setting, check_default_backend, check_pools, validate_global_config,
  validate_leader_election,
}
use mlb_controller.Validator.Adapters.{
  AdapterError, or_adapter, is_valid_relative_uri, check_protocol, check_apis, check_timeouts,
  validate_nginx_config, validate_nginx, validate_envoy_config, validate_envoy,
}
use mlb_controller.Validator.Composite.{
  ConfigError, in_settings, in_global_list, in_load_balancers, in_adapters, Validator, validators,
  wrap, or_config, run_validators, validate,
}

-- The lease has a name, and its periods are positive and increasing.
abbrev pub IsElection : LeaderElectionConfig → Type 0
IsElection c =
    (c.lease_name ≢ [])
    × (c.lease_namespace ≢ [])
    × (ltb_ℤ (pos 0) c.retry_period ≡ true)
    × (ltb_ℤ c.retry_period c.renew_deadline ≡ true)
    × (ltb_ℤ c.renew_deadline c.lease_duration ≡ true)

-- Where leader election is enabled, `LeaderElectionValidator` accepts exactly the settings in which
-- the lease has a name and a namespace, the retry period is positive and below the renew deadline, and
-- the renew deadline is below the lease duration.
pub validate_leader_election_iff :
    (c : LeaderElectionConfig)
    → c.enabled ≡ true
    → (validate_leader_election c ≡ none) ↔ IsElection c
unfolding validate_leader_election
validate_leader_election_iff c e = (
  λ h. (
    λ n. ground (arith, e, h, (str_beq_iff c.lease_name []).1 n),
    λ n. ground (arith, e, h, (str_beq_iff c.lease_namespace []).1 n),
    ground (arith, e, h),
    ground (arith, e, h),
    ground (arith, e, h),
  ),
  λ (name, namespace, retry, renew, lease). elim (Bool-cases (c.lease_name == [])) [
    | inl t ↦ absurd (name ((str_beq_iff c.lease_name []).0 t))
    | inr f ↦ elim (Bool-cases (c.lease_namespace == [])) [
      | inl t ↦ absurd (namespace ((str_beq_iff c.lease_namespace []).0 t))
      | inr g ↦ ground (arith, e, f, g, retry, renew, lease)
    ]
  ],
)

-- Requests to the servers of a load balancer are bounded in number and in time.
abbrev pub IsBounded : LoadBalancerConfig → Type 0
IsBounded lb =
    (leb_ℤ (pos 1) (get_request_pool_size lb) ≡ true)
    × (leb_ℤ (get_request_pool_size lb) (pos 100) ≡ true)
    × (ltb_ℤ (pos 0) (get_request_time_out lb) ≡ true)

-- The paths of the requests are relative, and with https there is a host name to check.
abbrev pub HasEndpoint : LoadBalancerConfig → Type 0
HasEndpoint (nginx c) =
    ((c.protocol ≡ codes "http")
      ⊎ ((c.protocol ≡ codes "https") × (is_valid_domain c.hostname ≡ true)))
    × (is_valid_relative_uri c.list_api ≡ true)
    × (is_valid_relative_uri c.add_api ≡ true)
    × (is_valid_relative_uri c.remove_api ≡ true)
HasEndpoint (envoy c) = c.protocol ≡ codes "grpc"

or_setting-none : (a b : Option SettingsError) → or_setting a b ≡ none → b ≡ none
or_setting-none none b h = h
or_setting-none (some e) b h = absurd cc

or_adapter-none : (a b : Option AdapterError) → or_adapter a b ≡ none → (a ≡ none) × (b ≡ none)
or_adapter-none none b h = (refl, h)
or_adapter-none (some e) b h = absurd cc

or_config-none : (a b : Option ConfigError) → or_config a b ≡ none → (a ≡ none) × (b ≡ none)
or_config-none none b h = (refl, h)
or_config-none (some e) b h = absurd cc

wrap-none {ℓ} : {E : Type ℓ} (f : E → ConfigError) (o : Option E) → wrap f o ≡ none → o ≡ none
unfolding wrap
wrap-none f none h = refl
wrap-none f (some e) h = absurd cc

each_accepts :
    (vs : List Validator) (cfg : Config) → run_validators vs cfg ≡ none → All (λ v. v cfg ≡ none) vs
unfolding run_validators
each_accepts [] cfg h = tt
each_accepts (v ∷ vs) cfg h =
    let (first, rest) = or_config-none (v cfg) (run_validators vs cfg) h in
    (first, each_accepts vs cfg rest)

check_pools_sound : (lbs : List LoadBalancerConfig) → check_pools lbs ≡ none → All IsBounded lbs
unfolding check_pools
check_pools_sound [] h = tt
check_pools_sound (lb ∷ lbs) h = (
  (ground (arith, h), ground (arith, h), ground (arith, h)),
  check_pools_sound lbs (ground (arith, h)),
)

global_config_sound :
    (cfg : Config) → validate_global_config cfg ≡ none → All IsBounded cfg.load_balancers
unfolding validate_global_config
global_config_sound cfg h = check_pools_sound cfg.load_balancers (
    or_setting-none (check_default_backend cfg.default_backend) (check_pools cfg.load_balancers)
      (ground (arith, h)))

check_protocol_sound :
    (c : NginxConfig)
    → check_protocol c ≡ none
    → (c.protocol ≡ codes "http")
      ⊎ ((c.protocol ≡ codes "https") × (is_valid_domain c.hostname ≡ true))
unfolding check_protocol
check_protocol_sound c h = elim (Bool-cases (c.protocol == codes "http")) [
  | inl t ↦ inl ((str_beq_iff c.protocol (codes "http")).0 t)
  | inr f ↦
      inr ((str_beq_iff c.protocol (codes "https")).0 (ground (arith, h, f)), ground (arith, h, f))
]

nginx_sound : (c : NginxConfig) → validate_nginx_config c ≡ none → HasEndpoint (nginx c)
unfolding validate_nginx_config check_apis
nginx_sound c h =
    let (protocol, rest) = or_adapter-none (check_protocol c) _ h in
    let (apis, timeouts) = or_adapter-none (check_apis c) (check_timeouts c) rest in
    (
      check_protocol_sound c protocol,
      ground (arith, apis),
      ground (arith, apis),
      ground (arith, apis),
    )

envoy_sound : (c : EnvoyConfig) → validate_envoy_config c ≡ none → HasEndpoint (envoy c)
unfolding validate_envoy_config
envoy_sound c h = (str_beq_iff c.protocol (codes "grpc")).0 (ground (arith, h))

endpoints_sound :
    (lbs : List LoadBalancerConfig)
    → validate_nginx lbs ≡ none
    → validate_envoy lbs ≡ none
    → All HasEndpoint lbs
unfolding validate_nginx validate_envoy
endpoints_sound [] n e = tt
endpoints_sound (nginx c ∷ lbs) n e =
    let (first, rest) = or_adapter-none (validate_nginx_config c) (validate_nginx lbs) n in
    (nginx_sound c first, endpoints_sound lbs rest e)
endpoints_sound (envoy c ∷ lbs) n e =
    let (first, rest) = or_adapter-none (validate_envoy_config c) (validate_envoy lbs) e in
    (envoy_sound c first, endpoints_sound lbs n rest)

pub accepted_settings : (cfg : Config) → validate cfg ≡ none → validate_global_config cfg ≡ none
unfolding validate validators
accepted_settings cfg h =
    wrap-none in_settings (validate_global_config cfg) (each_accepts validators cfg h).0

-- In a configuration that the composite validator accepts, each load balancer has a pool of 1 to 100
-- requests, a positive request timeout and the endpoint of its kind: for NGINX http, or https with a
-- valid host name, and relative paths; for Envoy gRPC. The global replacement list and the load
-- balancers have passed their own validators.
pub accepted_config :
    (cfg : Config)
    → validate cfg ≡ none
    → All IsBounded cfg.load_balancers
      × All HasEndpoint cfg.load_balancers
      × (validate_global_list cfg ≡ none)
      × (validate_load_balancers cfg ≡ none)
unfolding validate validators
accepted_config cfg h =
    let passed = each_accepts validators cfg h in
    let lists = passed.1.1.1.1.1 in
    (
      global_config_sound cfg (wrap-none in_settings (validate_global_config cfg) passed.0),
      endpoints_sound cfg.load_balancers
          (wrap-none in_adapters (validate_nginx cfg.load_balancers) lists.1.1.0)
          (wrap-none in_adapters (validate_envoy cfg.load_balancers) lists.1.1.1.0),
      wrap-none in_global_list (validate_global_list cfg) lists.0,
      wrap-none in_load_balancers (validate_load_balancers cfg) lists.1.0,
    )
