-- ===== src/Controller/System/Justified.antt =====
-- Why a run of the controller of internal/controller/controller.go may have had an effect.
use mlb_controller.Base.{
  ◌≡◌, ◌≢◌, Bool, true, false, ◌==◌, str_eq, str_beq_iff, arith, refl, ◌⊎◌, inl, inr, List, [], ◌∷◌,
  Str, Bool-cases, All, Exists,
}
use mlb_controller.Base.Text.{split}
use mlb_controller.Domain.Model.{Service, Upstream}
use mlb_controller.Controller.Env.{
  Env, Controller, Effect, Error, lb_name, upstream_name, ok, err, sync_upstream,
  sync_all_upstreams,
}
use mlb_controller.Controller.Sync.SafetyNet.{MayPush}
use mlb_controller.Controller.Handler.{moved, empty_upstream}
use mlb_controller.Controller.Handler.Draining.{IsLast, find_other-IsLast}
use mlb_controller.Controller.Handler.Invariants.{IsUnshared, HasLeft}
use mlb_controller.Controller.Reconcile.Replacing.{MayReplaceAll}

-- The service under the key is gone, or its labels name another upstream than those of `last`.
abbrev pub IsLost : Env → Str → Service → Type 0
IsLost env key last =
    (namespace : Str) × (name : Str) × (split b'/' key ≡ namespace ∷ name ∷ [])
    × (((e : Error) × (env.k8s_client.get_service namespace name ≡ err e))
        ⊎ ((svc : Service) × (env.k8s_client.get_service namespace name ≡ ok svc)
            × ((lb_name last ≢ lb_name svc) ⊎ (upstream_name last ≢ upstream_name svc))))

-- An upstream that a service has left, and that no other listed service names.
abbrev pub IsDrain : Env → Upstream → Type 0
IsDrain env up =
    (key : Str) × (last : Service) × (up.load_balancer ≡ lb_name last)
    × (up.name ≡ upstream_name last)
    × IsLost env key last
    × ((services : List Service) × (env.k8s_client.list_services ≡ ok services)
        × IsLast key last services)

moved-apart :
    (last svc : Service)
    → moved last svc ≡ true
    → (lb_name last ≢ lb_name svc) ⊎ (upstream_name last ≢ upstream_name svc)
unfolding moved
moved-apart last svc m = elim (Bool-cases (lb_name last == lb_name svc)) [
  | inr f ↦ inl λ e. differ ((str_beq_iff (lb_name last) (lb_name svc)).1 e) f
  | inl t ↦ elim (Bool-cases (upstream_name last == upstream_name svc)) [
    | inr f ↦ inr λ e. differ ((str_beq_iff (upstream_name last) (upstream_name svc)).1 e) f
    | inl u ↦ absurd (ground (arith, m, t, u))
  ]
]
  where
    differ : {b : Bool} → b ≡ true → b ≡ false → ⊥
    differ p q = cc

HasLeft-IsLost :
    (env : Env) (key : Str) (last : Service) → HasLeft env key last → IsLost env key last
HasLeft-IsLost env key last (namespace, name, s, inl gone) = (namespace, name, s, inl gone)
HasLeft-IsLost env key last (namespace, name, s, inr (svc, g, m)) =
    (namespace, name, s, inr (svc, g, moved-apart last svc m))

pub drained :
    (env : Env) (key : Str) (last : Service)
    → HasLeft env key last
    → IsUnshared env key last
    → IsDrain env (empty_upstream env last)
unfolding empty_upstream
drained env key last left (services, l, n) = (
  key,
  last,
  refl,
  refl,
  HasLeft-IsLost env key last left,
  (services, l, find_other-IsLast key last services n),
)

abbrev pub IsPushed : Upstream → Env → Type 0
IsPushed up env = MayPush env up ⊎ IsDrain env up

-- The reason for a call of a load balancer, in what the controller has seen.
abbrev pub IsJustified : List Env → Effect → Type 0
IsJustified seen (sync_upstream lb up) = (lb ≡ up.load_balancer) × Exists (IsPushed up) seen
IsJustified seen (sync_all_upstreams lb m) = Exists (λ env. MayReplaceAll env lb m) seen
IsJustified seen _ = Unit

abbrev pub AreJustified : List Env → Controller → Type 0
AreJustified seen c = All (IsJustified seen) c.effects
