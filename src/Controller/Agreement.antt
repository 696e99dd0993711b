-- ===== src/Controller/Agreement.antt =====
-- `syncUpstreamsForService` and `syncSingleLoadBalancer` compute the same backends for an upstream.
pub mod Weights
pub mod Shares
use mlb_controller.Base.{
  Bool, true, false, not, ◌&&◌, ◌||◌, ◌≡◌, refl, sym, ap, ◌∙◌, List, [], ◌∷◌, ◌++◌, Option, none,
  some, Str, ℤ, ◌==◌, str_eq, str_beq_iff, if◌then◌else◌, All, arith, Bool-cases, inl, inr,
}
use mlb_controller.Base.GoMap
use mlb_controller.Base.GoMap.{GoMap}
use mlb_controller.Domain.Model.{Service, Backend, Upstream}
use mlb_controller.Controller.Env.{Env, Result, ok, err, lb_name, upstream_name}
use mlb_controller.Controller.Merge.Key.{Address}
use mlb_controller.Controller.Merge.Weights.{plus, plus_comm, plus_assoc, total}
use mlb_controller.Controller.Sync.{service_upstream, shares_upstream, merge_others}
use mlb_controller.Controller.Reconcile.Desired.{is_target, desired_upstreams}
use Weights.{IsOk, share, sum_if, merge_others-total}
use Shares.{weight_in, desired_upstreams-total}

-- The services of the upstream of `svc`, as the reconciliation selects them.
abbrev pub targets : Service → Service → Bool
targets svc s = is_target (lb_name svc) s && upstream_name s == upstream_name svc

abbrev pub IsAnother : Service → Service → Type 0
IsAnother svc s = (s.namespace == svc.namespace && s.name == svc.name) ≡ false

selected_alike :
    (svc s : Service)
    → is_target (lb_name svc) svc ≡ true
    → IsAnother svc s
    → targets svc s ≡ shares_upstream svc s
unfolding is_target shares_upstream
selected_alike svc s t h = ground (
  arith,
  t,
  h,
  str_beq_iff (upstream_name s) (upstream_name svc),
  str_beq_iff (upstream_name s) [],
  str_beq_iff (upstream_name svc) [],
)

itself :
    (svc : Service)
    → is_target (lb_name svc) svc ≡ true
    → (targets svc svc ≡ true) × (shares_upstream svc svc ≡ false)
unfolding is_target shares_upstream
itself svc t = (
  ground (arith, t, (str_beq_iff (upstream_name svc) (upstream_name svc)).1 refl),
  ground (
    arith,
    (str_beq_iff svc.namespace svc.namespace).1 refl,
    (str_beq_iff svc.name svc.name).1 refl,
  ),
)

sum_alike :
    (env : Env) (k : Address) (svc : Service) (ss : List Service)
    → is_target (lb_name svc) svc ≡ true
    → All (IsAnother svc) ss
    → sum_if k env (targets svc) ss ≡ sum_if k env (shares_upstream svc) ss
sum_alike env k svc [] t h = refl
sum_alike env k svc (s ∷ ss) t h = rw (selected_alike svc s t h.0) (
    ap (plus (if shares_upstream svc s then share k (service_upstream env s) else none))
      (sum_alike env k svc ss t h.1))

swap : (a b c : Option ℤ) → plus a (plus b c) ≡ plus b (plus a c)
swap a b c = sym (plus_assoc a b c) ∙ ap (λ x. plus x c) (plus_comm a b) ∙ plus_assoc b a c

sum_split :
    (env : Env) (k : Address) (svc : Service) (before after : List Service)
    → is_target (lb_name svc) svc ≡ true
    → All (IsAnother svc) before
    → All (IsAnother svc) after
    → sum_if k env (targets svc) (before ++ svc ∷ after)
      ≡ plus
          (share k (service_upstream env svc))
          (sum_if k env (shares_upstream svc) (before ++ svc ∷ after))
sum_split env k svc [] after t hb ha =
    let (taken, skipped) = itself svc t in
    rw (taken, skipped)
      (ap (plus (share k (service_upstream env svc))) (sum_alike env k svc after t ha))
sum_split env k svc (b ∷ before) after t hb ha = rw (selected_alike svc b t hb.0) (
    ap (plus (if shares_upstream svc b then share k (service_upstream env b) else none))
      (sum_split env k svc before after t hb.1 ha)
    ∙ swap (if shares_upstream svc b then share k (service_upstream env b) else none)
        (share k (service_upstream env svc))
        (sum_if k env (shares_upstream svc) (before ++ svc ∷ after)))

-- Where no service of the list fails and no other one has the name of `svc`, the event-driven
-- synchronisation of `svc` and the periodic reconciliation of its load balancer find the same
-- weight at each address for the upstream of `svc`, whichever service of the upstream was the one
-- that changed.
pub synchronisations_agree :
    (env : Env) (known : GoMap Upstream) (svc : Service) (before after : List Service)
    (up : Upstream) (backends : List Backend) (k : Address)
    → is_target (lb_name svc) svc ≡ true
    → All (IsOk env) (before ++ svc ∷ after)
    → All (IsAnother svc) before
    → All (IsAnother svc) after
    → service_upstream env svc ≡ ok (some up)
    → merge_others env svc up.backends (before ++ svc ∷ after) ≡ ok backends
    → weight_in k
        (upstream_name svc)
        (desired_upstreams env (lb_name svc) known (before ++ svc ∷ after) [])
      ≡ total k backends
synchronisations_agree env known svc before after up backends k t oks hb ha s m =
    desired_upstreams-total env (lb_name svc) (upstream_name svc) known k (before ++ svc ∷ after) []
      oks (unfold GoMap.lookup in refl)
    ∙ unfold GoMap.lookup in
      (sum_split env k svc before after t hb ha
        ∙ ap (λ r. plus (share k r) (sum_if k env (shares_upstream svc) (before ++ svc ∷ after))) s
        ∙ sym (merge_others-total env svc k up.backends (before ++ svc ∷ after) backends m))
