-- ===== src/Application/Container/Laws.antt =====
-- With which configurations the program comes up.
use mlb_controller.Base.{
  ◌≡◌, refl, sym, ap, ◌∙◌, ◌↔◌, inl, inr, true, false, List, [], ◌∷◌, ◌++◌, none, some, Str, codes,
  ◌==◌, str_eq, str_beq_iff, All, any, arith, Bool-cases,
}
use mlb_controller.Base.GoMap
use mlb_controller.Base.GoMap.{GoMap}
use mlb_controller.Base.Fallible.{success, failure, failure-ne-success, success-injective}
use mlb_controller.Net.Tls.{Tls}
use mlb_controller.Domain.Config.{
  Config, LoadBalancerConfig, nginx, envoy, NginxConfig, get_name, GlobalIpReplacementList,
}
use mlb_controller.Nginx.Client.{NginxClient}
use mlb_controller.Validator.LoadBalancer.{check_load_balancers, validate_load_balancers}
use mlb_controller.Validator.LoadBalancer.Laws.{rest_accepted}
use mlb_controller.Validator.Composite.Laws.{accepted_config}
use mlb_controller.Application.Certificates.{Files, load}
use mlb_controller.Application.Certificates.Laws.{usable-ready}
use mlb_controller.Application.Loader.{Sources, load_config}
use mlb_controller.Application.Loader.Laws.{IsTyped, load_config_sound}
use mlb_controller.Application.Container.{
  Made, create_load_balancer_adapter, after_adapter, create_adapters,
}

abbrev pub IsNginx : LoadBalancerConfig → Type 0
IsNginx (nginx c) = Unit
IsNginx (envoy c) = ⊥

typed_nginx-success :
    (tls : Tls) (c : NginxConfig)
    → IsTyped tls (nginx c)
    → (clients : List NginxClient) × (create_load_balancer_adapter tls (nginx c) ≡ success clients)
unfolding create_load_balancer_adapter
typed_nginx-success tls c (typed, usable) =
    let (clients, made_ready) = usable-ready tls c usable in
    (clients, rw ((str_beq_iff c.lb_type (codes "nginx")).1 typed, made_ready) refl)

typed-success-IsNginx :
    (tls : Tls) (lb : LoadBalancerConfig) (clients : List NginxClient)
    → IsTyped tls lb
    → create_load_balancer_adapter tls lb ≡ success clients
    → IsNginx lb
unfolding create_load_balancer_adapter
typed-success-IsNginx tls (nginx c) clients t h = tt
typed-success-IsNginx tls (envoy c) clients t h = elim (Bool-cases (c.lb_type == codes "nginx")) [
  | inl y ↦ absurd (failure-ne-success _ _ (rw y at h))
  | inr f ↦ elim (Bool-cases (c.lb_type == codes "envoy")) [
    | inl y ↦ absurd (failure-ne-success _ _ (rw (f, y) at h))
    | inr g ↦ absurd (failure-ne-success _ _ (rw (f, g) at h))
  ]
]

-- One round of the loop that came to its end.
round :
    (tls : Tls) (lb : LoadBalancerConfig) (lbs : List LoadBalancerConfig)
    (m m' : GoMap (List NginxClient))
    → create_adapters tls (lb ∷ lbs) m ≡ success m'
    → (clients : List NginxClient) × (create_load_balancer_adapter tls lb ≡ success clients)
      × (create_adapters tls lbs (GoMap.insert (get_name lb) clients m) ≡ success m')
unfolding create_adapters
round tls lb lbs m m' h = go (create_load_balancer_adapter tls lb) refl h
  where
    go :
        (r : Made (List NginxClient))
        → create_load_balancer_adapter tls lb ≡ r
        → after_adapter (get_name lb) r (create_adapters tls lbs) m ≡ success m'
        → (clients : List NginxClient) × (create_load_balancer_adapter tls lb ≡ success clients)
          × (create_adapters tls lbs (GoMap.insert (get_name lb) clients m) ≡ success m')
    go (success clients) e k = (clients, e, k)
    go (failure f) e k = absurd cc

create_adapters-AllNginx :
    (tls : Tls) (lbs : List LoadBalancerConfig) (m m' : GoMap (List NginxClient))
    → All (IsTyped tls) lbs
    → create_adapters tls lbs m ≡ success m'
    → All IsNginx lbs
create_adapters-AllNginx tls [] m m' t h = tt
create_adapters-AllNginx tls (lb ∷ lbs) m m' t h =
    let (clients, one, rest) = round tls lb lbs m m' h in
    (typed-success-IsNginx tls lb clients t.0 one, create_adapters-AllNginx tls lbs _ m' t.1 rest)

create_adapters_made :
    (tls : Tls) (lbs : List LoadBalancerConfig) (m : GoMap (List NginxClient))
    → All (IsTyped tls) lbs
    → All IsNginx lbs
    → (m' : GoMap (List NginxClient)) × (create_adapters tls lbs m ≡ success m')
unfolding create_adapters
create_adapters_made tls [] m t n = (m, refl)
create_adapters_made tls (nginx c ∷ lbs) m t n =
    let (clients, one) = typed_nginx-success tls c t.0 in
    let (m', rest) = create_adapters_made tls lbs (GoMap.insert c.name clients m) t.1 n.1 in
    (m', rw one rest)
create_adapters_made tls (envoy c ∷ lbs) m t n = absurd n.0

-- A name that has been seen is not one that has not.
another :
    (n name : Str) (names : List Str)
    → any (λ k. k == name) names ≡ true
    → any (λ k. k == n) names ≡ false
    → (n == name) ≡ false
another n name names t f = elim (Bool-cases (n == name)) [
  | inr g ↦ g
  | inl e ↦
      absurd (cc (sym t ∙ ap (λ k. any (λ j. j == k) names) (sym ((str_beq_iff n name).0 e)) ∙ f))
]

-- An adapter stays in the map while no later load balancer has its name.
adapter_kept :
    (tls : Tls) (global : GlobalIpReplacementList) (names : List Str) (name : Str)
    (clients : List NginxClient) (lbs : List LoadBalancerConfig) (m m' : GoMap (List NginxClient))
    → any (λ n. n == name) names ≡ true
    → check_load_balancers global names lbs ≡ none
    → GoMap.lookup name m ≡ some clients
    → create_adapters tls lbs m ≡ success m'
    → GoMap.lookup name m' ≡ some clients
unfolding create_adapters
adapter_kept tls global names name clients [] m m' seen h l e =
    ap (GoMap.lookup name) (sym (success-injective e)) ∙ l
adapter_kept tls global names name clients (lb ∷ lbs) m m' seen h l e =
    let (accepted, later) = rest_accepted global names lb lbs h in
    let (others, one, rest) = round tls lb lbs m m' e in
    adapter_kept tls global (get_name lb ∷ names) name clients lbs
      (GoMap.insert (get_name lb) others m) m' (ground (arith, seen)) later
      (GoMap.lookup-insert (get_name lb) name others m
        ∙ rw (another (get_name lb) name names seen accepted.1) l)
      rest

adapter_found :
    (tls : Tls) (global : GlobalIpReplacementList) (names : List Str)
    (before : List LoadBalancerConfig) (lb : LoadBalancerConfig) (after : List LoadBalancerConfig)
    (m m' : GoMap (List NginxClient))
    → check_load_balancers global names (before ++ lb ∷ after) ≡ none
    → create_adapters tls (before ++ lb ∷ after) m ≡ success m'
    → (clients : List NginxClient) × (create_load_balancer_adapter tls lb ≡ success clients)
      × (GoMap.lookup (get_name lb) m' ≡ some clients)
adapter_found tls global names [] lb after m m' h e =
    let (accepted, later) = rest_accepted global names lb after h in
    let (clients, one, rest) = round tls lb after m m' e in
    let here = (str_beq_iff (get_name lb) (get_name lb)).1 refl in
    (
      clients,
      one,
      adapter_kept tls global (get_name lb ∷ names) (get_name lb) clients after
          (GoMap.insert (get_name lb) clients m) m' (rw here refl) later
          (GoMap.lookup-insert (get_name lb) (get_name lb) clients m ∙ rw here refl) rest,
    )
adapter_found tls global names (b ∷ before) lb after m m' h e =
    let (accepted, later) = rest_accepted global names b (before ++ lb ∷ after) h in
    let (clients, one, rest) = round tls b (before ++ lb ∷ after) m m' e in
    adapter_found tls global (get_name b ∷ names) before lb after _ m' later rest

module _ {Raw : Type 0} (src : Sources Raw) (tls : Tls) (files : Files)
    (from_files : src.load_certificates ≡ load tls files) (cfg : Config)
    (read : load_config src ≡ success cfg) where
  -- Let the certificates come from `FileLoader`. With a configuration that the loader returns, an
  -- adapter is made for every load balancer exactly if all of them are of type nginx: an Envoy load
  -- balancer, which the validators accept, keeps the program from starting, and no certificate does.
  pub startup_iff :
      ((m : GoMap (List NginxClient)) × (create_adapters tls cfg.load_balancers [] ≡ success m))
      ↔ All IsNginx cfg.load_balancers
  startup_iff =
      let (filled, valid, typed) = load_config_sound src tls files from_files cfg read in
      (
        λ (m, e). create_adapters-AllNginx tls cfg.load_balancers [] m typed e,
        λ n. create_adapters_made tls cfg.load_balancers [] typed n,
      )

  -- Let the certificates come from `FileLoader`. Where the program comes up with a configuration that
  -- the loader returns, each load balancer, wherever it stands in the list, is found under its own
  -- name with the clients that the factory made for it, and not with those of another.
  pub startup-found :
      (m : GoMap (List NginxClient)) (before : List LoadBalancerConfig) (lb : LoadBalancerConfig)
      (after : List LoadBalancerConfig)
      → create_adapters tls cfg.load_balancers [] ≡ success m
      → cfg.load_balancers ≡ before ++ lb ∷ after
      → (clients : List NginxClient) × (create_load_balancer_adapter tls lb ≡ success clients)
        × (GoMap.lookup (get_name lb) m ≡ some clients)
  unfolding validate_load_balancers
  startup-found m before lb after e split =
      let (filled, valid, typed) = load_config_sound src tls files from_files cfg read in
      let (bounded, endpoint, global, balancers) = accepted_config cfg valid in
      adapter_found tls cfg.global_ip_replacement_list [] before lb after [] m
        (ap (check_load_balancers cfg.global_ip_replacement_list []) (sym split) ∙ balancers)
        (ap (λ lbs. create_adapters tls lbs []) (sym split) ∙ e)
