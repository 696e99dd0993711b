-- ===== src/Controller/Reconcile/Replacing.antt =====
-- With what the fallback of `syncSingleLoadBalancer` lets an upstream be replaced.
use mlb_controller.Base.{
  true, not, ◌&&◌, ◌≡◌, refl, [], ◌∷◌, Option, Str, str_eq, arith, is_empty, All, Bool-cases, inl,
  inr, ◌||◌,
}
use mlb_controller.Base.GoMap.{GoMap}
use mlb_controller.Domain.Config.{LoadBalancerConfig}
use mlb_controller.Domain.Model.{Upstream}
use mlb_controller.Controller.Env.{Env, get_load_balancer_config}
use mlb_controller.Controller.Fallback.{push, preserve, Fallback, fallback, allow_empty}
use mlb_controller.Controller.Reconcile.Desired.{decide, keep_old, apply_fallback, apply_fallbacks}

-- The load balancer's upstream is replaced only by backends, unless empty upstreams are allowed.
abbrev pub MayReplace : Env → Option LoadBalancerConfig → Upstream → Type 0
MayReplace env config up =
    up.preserve_existing_backends || not (is_empty up.backends) || allow_empty env config ≡ true

abbrev pub MayReplaceAll : Env → Str → GoMap Upstream → Type 0
MayReplaceAll env lb = All λ entry. MayReplace env (get_load_balancer_config env lb) entry.1

fallback-safe :
    (env : Env) (lb name : Str) (config : Option LoadBalancerConfig) (known : GoMap Upstream)
    (up : Upstream) (f : Fallback)
    → fallback env config ≡ f
    → MayReplace env config (decide lb name known up f)
unfolding decide keep_old fallback
fallback-safe env lb name config known up preserve q = refl
fallback-safe env lb name config known up (push bs) q = ground arith

apply_fallback-safe :
    (env : Env) (lb name : Str) (config : Option LoadBalancerConfig) (known : GoMap Upstream)
    (up : Upstream)
    → MayReplace env config (apply_fallback env lb config known name up)
unfolding apply_fallback
apply_fallback-safe env lb name config known up =
    elim (Bool-cases (not up.preserve_existing_backends && is_empty up.backends)) [
      | inl t ↦ rw t (fallback-safe env lb name config known up (fallback env config) refl)
      | inr f ↦ rw f (ground (arith, f))
    ]

pub apply_fallbacks-safe :
    (env : Env) (lb : Str) (known m : GoMap Upstream)
    → MayReplaceAll env lb (apply_fallbacks env lb (get_load_balancer_config env lb) known m)
unfolding apply_fallbacks
apply_fallbacks-safe env lb known [] = tt
apply_fallbacks-safe env lb known ((name, up) ∷ m) = (
  apply_fallback-safe env lb name (get_load_balancer_config env lb) known up,
  apply_fallbacks-safe env lb known m,
)
