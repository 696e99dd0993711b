-- ===== src/Controller/Handler/Draining.antt =====
-- When the deletion of a service drains its upstream.
use mlb_controller.Base.{
  Bool, true, false, not, ◌&&◌, ◌||◌, ◌≡◌, ◌≢◌, ◌⊎◌, refl, ap, ◌∙◌, inl, inr, Bool-cases, List, [],
  ◌∷◌, ◌++◌, none, some, Str, ◌==◌, str_eq, str_beq_iff, append_assoc, arith, if◌then◌else◌, All,
}
use mlb_controller.Base.GoMap
use mlb_controller.Domain.Model.{Service, Upstream}
use mlb_controller.Controller.Env.{
  Env, Controller, LoadBalancerAdapter, Effect, Result, ok, err, sync_failed, increment_sync_errors,
  ◌>>=◌, lb_name, upstream_name, slash, service_key, update_backends_total, sync_upstream, pure,
}
use mlb_controller.Controller.Handler.{
  find_other, empty_upstream, drain, released, release, handle_service_deletion,
}

-- No listed service but the deleted one has these labels.
abbrev pub IsLast : Str → Service → List Service → Type 0
IsLast key svc =
    All
      λ s. (service_key s ≡ key) ⊎ (lb_name s ≢ lb_name svc) ⊎ (upstream_name s ≢ upstream_name svc)

find_other-none :
    (key : Str) (svc : Service) (services : List Service)
    → IsLast key svc services
    → find_other key svc services ≡ none
unfolding find_other
find_other-none key svc [] h = refl
find_other-none key svc (s ∷ ss) h = ground (
  arith,
  h.0,
  str_beq_iff (service_key s) key,
  str_beq_iff (lb_name s) (lb_name svc),
  str_beq_iff (upstream_name s) (upstream_name svc),
  find_other-none key svc ss h.1,
)

pub find_other-IsLast :
    (key : Str) (svc : Service) (services : List Service)
    → find_other key svc services ≡ none
    → IsLast key svc services
unfolding find_other
find_other-IsLast key svc [] h = tt
find_other-IsLast key svc (s ∷ ss) h =
    elim (Bool-cases (
      not (service_key s == key)
      && lb_name s == lb_name svc
      && upstream_name s == upstream_name svc)) [
        | inl t ↦ absurd (cc (rw t at h))
        | inr f ↦ (differs f, find_other-IsLast key svc ss (rw f at h))
      ]
  where
    clash : {b : Bool} → b ≡ true → b ≡ false → ⊥
    clash p q = cc

    differs :
        (not (service_key s == key)
            && lb_name s == lb_name svc
            && upstream_name s == upstream_name svc)
          ≡ false
        → (service_key s ≡ key) ⊎ (lb_name s ≢ lb_name svc) ⊎ (upstream_name s ≢ upstream_name svc)
    differs f = elim (Bool-cases (service_key s == key)) [
      | inl k ↦ inl ((str_beq_iff (service_key s) key).0 k)
      | inr k ↦ elim (Bool-cases (lb_name s == lb_name svc)) [
        | inr l ↦ inr (inl λ e. clash ((str_beq_iff (lb_name s) (lb_name svc)).1 e) l)
        | inl l ↦ inr (
            inr λ e.
              clash ((str_beq_iff (upstream_name s) (upstream_name svc)).1 e)
                (ground (arith, f, k, l)))
      ]
    ]

-- What follows a call of the load balancer: the error that is returned, and its count.
abbrev pub drain_result : Service → Result (Unit {0}) → Result (Unit {0})
drain_result svc (ok u) = ok tt
drain_result svc (err e) = err (sync_failed (lb_name svc) (upstream_name svc) e)

abbrev pub drain_failures : Service → Result (Unit {0}) → List Effect
drain_failures svc (ok u) = []
drain_failures svc (err e) = increment_sync_errors (upstream_name svc) ∷ []

-- What draining does, where the load balancer answers `r`.
abbrev drained : Env → Service → Result (Unit {0}) → Controller → Controller
drained env svc r c = record c {
  state = record c.state {
    upstreams = GoMap.delete (slash (lb_name svc) (upstream_name svc)) c.state.upstreams;
  };
  effects =
      (c.effects ++ update_backends_total (upstream_name svc) 0 ∷ [])
      ++ sync_upstream (lb_name svc) (empty_upstream env svc) ∷ drain_failures svc r;
}

drain-eq :
    (env : Env) (svc : Service) (adapter : LoadBalancerAdapter) (c : Controller)
    (r : Result (Unit {0}))
    → GoMap.lookup (lb_name svc) env.load_balancers ≡ some adapter
    → adapter.sync_upstream (empty_upstream env svc) ≡ r
    → drain env svc c ≡ (drain_result svc r, drained env svc r c)
unfolding drain ◌>>=◌
drain-eq env svc adapter c (ok u) a q = rw a (rw q refl)
drain-eq env svc adapter c (err e) a q = rw a (
    rw q (
      ap
        (λ es. (
          err (sync_failed (lb_name svc) (upstream_name svc) e),
          record (drained env svc (ok tt) c) { effects = es },
        ))
        (append_assoc (c.effects ++ update_backends_total (upstream_name svc) 0 ∷ [])
          (sync_upstream (lb_name svc) (empty_upstream env svc) ∷ [])
          (increment_sync_errors (upstream_name svc) ∷ []))))

release-last :
    (env : Env) (key : Str) (svc : Service) (services : List Service) (c : Controller)
    (r : Result (List Service))
    → r ≡ ok services
    → IsLast key svc services
    → release env key svc r c ≡ drain env svc c
unfolding release released
release-last env key svc services c r l last =
    rw l (rw (find_other-none key svc services last) refl)

deletion-drain :
    (env : Env) (key : Str) (svc : Service) (services : List Service) (c : Controller)
    → lb_name svc ≢ []
    → upstream_name svc ≢ []
    → env.k8s_client.list_services ≡ ok services
    → IsLast key svc services
    → handle_service_deletion env key svc c ≡ drain env svc c
unfolding handle_service_deletion
deletion-drain env key svc services c nl nu l last =
    go (lb_name svc == []) (upstream_name svc == []) refl refl
  where
    go :
        (a b : Bool)
        → (lb_name svc == []) ≡ a
        → (upstream_name svc == []) ≡ b
        → (if a || b then pure tt else release env key svc env.k8s_client.list_services) c
          ≡ drain env svc c
    go true b p q = absurd (nl ((str_beq_iff (lb_name svc) []).0 p))
    go false true p q = absurd (nu ((str_beq_iff (upstream_name svc) []).0 q))
    go false false p q = release-last env key svc services c env.k8s_client.list_services l last

-- Let a deleted service have both labels, its load balancer an adapter, and let the services be listed,
-- none of the others with the same two labels. Then its deletion takes the entry of the upstream out of
-- the state, also where the load balancer refuses, and sends the load balancer, after the count of the
-- backends is set to 0, one upstream: the one with this name, without any backend. An error of the load
-- balancer is counted and returned with the names of both; nothing else is sent, queued or counted.
pub deletion-drains :
    (env : Env) (key : Str) (svc : Service) (services : List Service)
    (adapter : LoadBalancerAdapter) (c : Controller)
    → lb_name svc ≢ []
    → upstream_name svc ≢ []
    → env.k8s_client.list_services ≡ ok services
    → IsLast key svc services
    → GoMap.lookup (lb_name svc) env.load_balancers ≡ some adapter
    → (GoMap.lookup
          (slash (lb_name svc) (upstream_name svc))
          (handle_service_deletion env key svc c).1.state.upstreams
        ≡ none)
      × ((up : Upstream) × (up.backends ≡ [])
          × (up.name ≡ upstream_name svc)
          × (up.load_balancer ≡ lb_name svc)
          × (up.preserve_existing_backends ≡ false)
          × ((handle_service_deletion env key svc c).0
              ≡ drain_result svc (adapter.sync_upstream up))
          × ((handle_service_deletion env key svc c).1.effects
              ≡ (c.effects ++ update_backends_total (upstream_name svc) 0 ∷ [])
                ++ sync_upstream (lb_name svc) up ∷ drain_failures svc (adapter.sync_upstream up)))
unfolding empty_upstream
deletion-drains env key svc services adapter c nl nu l last a =
    let up = empty_upstream env svc in
    let p =
      deletion-drain env key svc services c nl nu l last
      ∙ drain-eq env svc adapter c (adapter.sync_upstream up) a refl in
    let k = slash (lb_name svc) (upstream_name svc) in
    (
      ap (λ x. GoMap.lookup k x.1.state.upstreams) p
          ∙ GoMap.lookup-delete k k c.state.upstreams
          ∙ rw ((str_beq_iff k k).1 refl),
      (up, refl, refl, refl, refl, ap (λ x. x.0) p, ap (λ x. x.1.effects) p),
    )
