-- ===== src/Controller/Handler/Invariants.antt =====
-- What `syncHandler` and `handleServiceDeletion` keep, whatever they return: a rule for invariants
-- that their steps respect.
use mlb_controller.Base.{
  ◌||◌, ◌≡◌, refl, ◌⊎◌, inl, inr, true, List, [], ◌∷◌, Option, none, some, Str, ◌==◌, str_eq,
  Bool-cases,
}
use mlb_controller.Base.GoMap
use mlb_controller.Base.Text.{split}
use mlb_controller.Domain.Model.{Service, Backend, Upstream}
use mlb_controller.Controller.Env.{
  Env, Controller, Result, ok, err, Error, list_failed, invalid_key, lb_name, upstream_name, slash,
  get_load_balancer_config,
}
use mlb_controller.Controller.Env.Keeps.{Keeps, Keeps-pure, Keeps-raise, Keeps-bind, Keeps-if}
use mlb_controller.Controller.Fallback.{push, resolve}
use mlb_controller.Controller.Sync.{service_upstream}
use mlb_controller.Controller.Sync.Invariants.{
  Respects, sync_upstreams_for_service-Keeps, sync_load_balancer_upstream-Keeps, report-Keeps,
}
use mlb_controller.Controller.Handler.{
  find_other, empty_upstream, delete_upstream, drain, released, release, handle_service_deletion,
  forget_service, remember_service, gone_as, service_gone, moved, leave_as, leave_old,
  service_present, handle_found, handle_parts, sync_handler,
}

-- No other service that the cluster lists targets the upstream of this one.
abbrev pub IsUnshared : Env → Str → Service → Type 0
IsUnshared env key svc =
    (services : List Service) × (env.k8s_client.list_services ≡ ok services)
    × (find_other key svc services ≡ none)

-- The service under the key has left the upstream of `last`: it is gone, or its labels name another.
abbrev pub HasLeft : Env → Str → Service → Type 0
HasLeft env key last =
    (namespace : Str) × (name : Str) × (split b'/' key ≡ namespace ∷ name ∷ [])
    × (((e : Error) × (env.k8s_client.get_service namespace name ≡ err e))
        ⊎ ((svc : Service) × (env.k8s_client.get_service namespace name ≡ ok svc)
            × (moved last svc ≡ true)))

-- Every upstream that a synchronisation sends may be pushed.
abbrev pub Pushes : Env → (Upstream → Type 0) → Type 0
Pushes env Q =
    (svc : Service) (up : Upstream)
    → service_upstream env svc ≡ ok (some up)
    → (bs cs : List Backend) → resolve env (get_load_balancer_config env (lb_name svc)) bs ≡ push cs
    → Q (record up { backends = cs })

module _ (P : Controller → Type 0) (Q : Upstream → Type 0) (r : Respects P Q) (env : Env)
    (pushes : Pushes env Q)
    (deleted : (key : Str) (c : Controller) → P c → P (delete_upstream key c).1) where
  drain-Keeps : (svc : Service) → Q (empty_upstream env svc) → Keeps P (drain env svc)
  unfolding drain
  drain-Keeps svc q =
      Keeps-bind P _ _ (record { at = deleted (slash (lb_name svc) (upstream_name svc)) })
        λ _.
          Keeps-bind P _ _ (record { at = r.total (upstream_name svc) [] })
            λ _.
              report-Keeps P Q r env (upstream_name svc) _
                (sync_load_balancer_upstream-Keeps P Q r env (empty_upstream env svc) q)

  released-Keeps :
      (key : Str) (svc : Service) (services : List Service) (o : Option Service)
      → find_other key svc services ≡ o
      → (find_other key svc services ≡ none → Q (empty_upstream env svc))
      → Keeps P (released env svc o)
  unfolding released
  released-Keeps key svc services none e q = drain-Keeps svc (q e)
  released-Keeps key svc services (some other) e q =
      sync_upstreams_for_service-Keeps P Q r env other (pushes other)

  release-Keeps :
      (key : Str) (svc : Service) (l : Result (List Service))
      → ((services : List Service)
          → l ≡ ok services
          → find_other key svc services ≡ none
          → Q (empty_upstream env svc))
      → Keeps P (release env key svc l)
  unfolding release
  release-Keeps key svc (err e) q = Keeps-raise P (list_failed key e)
  release-Keeps key svc (ok services) q =
      released-Keeps key svc services (find_other key svc services) refl (q services refl)

  pub deletion-Keeps :
      (key : Str) (svc : Service)
      → (IsUnshared env key svc → Q (empty_upstream env svc))
      → Keeps P (handle_service_deletion env key svc)
  unfolding handle_service_deletion
  deletion-Keeps key svc q =
      Keeps-if P (lb_name svc == [] || upstream_name svc == []) _ _ (Keeps-pure P tt)
        (release-Keeps key svc env.k8s_client.list_services λ services l n. q (services, l, n))

  module _
      (drains : (key : Str) (last : Service)
        → HasLeft env key last
        → IsUnshared env key last
        → Q (empty_upstream env last))
      (forgot : (key : Str) (c : Controller) → P c → P (forget_service key c).1)
      (remembered : (key : Str) (svc : Service) (c : Controller)
        → P c
        → P (remember_service key svc c).1) where
    gone-Keeps :
        (key : Str) (o : Option Service)
        → ((last : Service) → HasLeft env key last)
        → Keeps P (gone_as env key o)
    unfolding gone_as
    gone-Keeps key none left = Keeps-pure P tt
    gone-Keeps key (some last) left =
        Keeps-bind P _ _ (deletion-Keeps key last (drains key last (left last)))
          λ _. record { at = forgot key }

    leave-Keeps :
        (key : Str) (svc : Service) (o : Option Service)
        → ((last : Service) → moved last svc ≡ true → HasLeft env key last)
        → Keeps P (leave_as env key svc o)
    unfolding leave_as
    leave-Keeps key svc none left = Keeps-pure P tt
    leave-Keeps key svc (some last) left = elim (Bool-cases (moved last svc)) [
      | inl t ↦ rw t (deletion-Keeps key last (drains key last (left last t)))
      | inr f ↦ rw f (Keeps-pure P tt)
    ]

    found-Keeps :
        (key namespace name : Str) (g : Result Service)
        → split b'/' key ≡ namespace ∷ name ∷ []
        → env.k8s_client.get_service namespace name ≡ g
        → Keeps P (handle_found env key g)
    unfolding handle_found service_gone service_present leave_old
    found-Keeps key namespace name (err e) s g = record {
      at = λ c h.
          (gone-Keeps key (GoMap.lookup key c.last_known_services)
              λ last. (namespace, name, s, inl (e, g))).at
            c h;
    }
    found-Keeps key namespace name (ok svc) s g =
        Keeps-bind P _ _
          (record {
            at = λ c h.
                (leave-Keeps key svc (GoMap.lookup key c.last_known_services)
                    λ last m. (namespace, name, s, inr (svc, g, m))).at
                  c h;
          })
          λ _.
            Keeps-bind P _ _ (record { at = remembered key svc })
              λ _. sync_upstreams_for_service-Keeps P Q r env svc (pushes svc)

    parts-Keeps :
        (key : Str) (parts : List Str)
        → split b'/' key ≡ parts
        → Keeps P (handle_parts env key parts)
    unfolding handle_parts
    parts-Keeps key [] s = Keeps-raise P (invalid_key key)
    parts-Keeps key (a ∷ []) s = Keeps-raise P (invalid_key key)
    parts-Keeps key (a ∷ b ∷ []) s = found-Keeps key a b (env.k8s_client.get_service a b) s refl
    parts-Keeps key (a ∷ b ∷ d ∷ parts) s = Keeps-raise P (invalid_key key)

    pub sync_handler-Keeps : (key : Str) → Keeps P (sync_handler env key)
    unfolding sync_handler
    sync_handler-Keeps key = parts-Keeps key (split b'/' key) refl
