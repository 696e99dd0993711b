-- ===== src/Validator/LoadBalancer/Laws.antt =====
-- A validated configuration has one load balancer for each name.
use mlb_controller.Base.{
  Bool, true, false, ◌≡◌, ◌≢◌, refl, sym, ap, ◌∙◌, List, [], ◌∷◌, ◌++◌, Option, none, some, Str,
  ◌==◌, str_eq, str_beq_iff, if◌then◌else◌, any, arith, Bool-cases, inl, inr,
}
use mlb_controller.Domain.Config.{LoadBalancerConfig, get_name, GlobalIpReplacementList}
use mlb_controller.Controller.Env.{Env, find_config, get_load_balancer_config}
use mlb_controller.Validator.LoadBalancer.{
  LoadBalancerError, or_then, check_load_balancer, check_load_balancers, validate_load_balancers,
}

or_then-none : (a b : Option LoadBalancerError) → or_then a b ≡ none → (a ≡ none) × (b ≡ none)
or_then-none none b h = (refl, h)
or_then-none (some e) b h = absurd cc

pub rest_accepted :
    (global : GlobalIpReplacementList) (names : List Str) (lb : LoadBalancerConfig)
    (lbs : List LoadBalancerConfig)
    → check_load_balancers global names (lb ∷ lbs) ≡ none
    → ((get_name lb ≢ []) × (any (λ n. n == get_name lb) names ≡ false))
      × (check_load_balancers global (get_name lb ∷ names) lbs ≡ none)
unfolding check_load_balancers
rest_accepted global names lb lbs h =
    go (get_name lb == []) (any (λ n. n == get_name lb) names) refl refl h
  where
    go :
        (a b : Bool)
        → (get_name lb == []) ≡ a
        → any (λ n. n == get_name lb) names ≡ b
        → (if a
            then some LoadBalancerError.name_required
            else if b
            then some (LoadBalancerError.name_not_unique (get_name lb))
            else or_then
                (check_load_balancer global lb)
                (check_load_balancers global (get_name lb ∷ names) lbs))
          ≡ none
        → ((get_name lb ≢ []) × (any (λ n. n == get_name lb) names ≡ false))
          × (check_load_balancers global (get_name lb ∷ names) lbs ≡ none)
    go true b p q r = absurd cc
    go false true p q r = absurd cc
    go false false p q r = (
      (λ e. ground (arith, p, (str_beq_iff (get_name lb) []).1 e), q),
      (or_then-none (check_load_balancer global lb) _ r).1,
    )

-- No later load balancer has a name that has been seen.
later_names :
    (global : GlobalIpReplacementList) (names : List Str) (name : Str)
    (before : List LoadBalancerConfig) (lb : LoadBalancerConfig) (after : List LoadBalancerConfig)
    → any (λ n. n == name) names ≡ true
    → check_load_balancers global names (before ++ lb ∷ after) ≡ none
    → get_name lb ≢ name
later_names global names name [] lb after seen h e =
    let r = rest_accepted global names lb after h in
    ground (arith, r.0.1, seen, ap (λ k. any (λ n. n == k) names) e)
later_names global names name (b ∷ before) lb after seen h e =
    let r = rest_accepted global names b (before ++ lb ∷ after) h in
    later_names global (get_name b ∷ names) name before lb after (ground (arith, seen)) r.1 e

find_config-accepted :
    (global : GlobalIpReplacementList) (names : List Str) (before : List LoadBalancerConfig)
    (lb : LoadBalancerConfig) (after : List LoadBalancerConfig)
    → check_load_balancers global names (before ++ lb ∷ after) ≡ none
    → find_config (get_name lb) (before ++ lb ∷ after) ≡ some lb
unfolding find_config
find_config-accepted global names [] lb after h =
    rw ((str_beq_iff (get_name lb) (get_name lb)).1 refl) refl
find_config-accepted global names (b ∷ before) lb after h =
    elim (Bool-cases (get_name b == get_name lb)) [
      | inr f ↦ rw f (
          find_config-accepted global (get_name b ∷ names) before lb after
            (rest_accepted global names b (before ++ lb ∷ after) h).1)
      | inl t ↦ absurd (
          later_names global (get_name b ∷ names) (get_name b) before lb after
            (ground (arith, (str_beq_iff (get_name b) (get_name b)).1 refl))
            (rest_accepted global names b (before ++ lb ∷ after) h).1
            (sym ((str_beq_iff (get_name b) (get_name lb)).0 t)))
    ]

-- In a configuration that `LoadBalancerValidator` accepts, the controller finds each load balancer
-- by its own name, wherever it stands in the list, and this name is not empty.
pub accepted-found :
    (env : Env) (before : List LoadBalancerConfig) (lb : LoadBalancerConfig)
    (after : List LoadBalancerConfig)
    → env.config.load_balancers ≡ before ++ lb ∷ after
    → validate_load_balancers env.config ≡ none
    → (get_load_balancer_config env (get_name lb) ≡ some lb) × (get_name lb ≢ [])
unfolding get_load_balancer_config validate_load_balancers
accepted-found env before lb after e h =
    let global : GlobalIpReplacementList = env.config.global_ip_replacement_list in
    let accepted : check_load_balancers global [] (before ++ lb ∷ after) ≡ none =
      ap (check_load_balancers global []) (sym e) ∙ h in
    (
      ap (find_config (get_name lb)) e ∙ find_config-accepted global [] before lb after accepted,
      named global [] before lb after accepted,
    )
  where
    named :
        (global : GlobalIpReplacementList) (names : List Str) (before : List LoadBalancerConfig)
        (lb : LoadBalancerConfig) (after : List LoadBalancerConfig)
        → check_load_balancers global names (before ++ lb ∷ after) ≡ none
        → get_name lb ≢ []
    named global names [] lb after h = (rest_accepted global names lb after h).0.0
    named global names (b ∷ before) lb after h =
        named global (get_name b ∷ names) before lb after
          (rest_accepted global names b (before ++ lb ∷ after) h).1
