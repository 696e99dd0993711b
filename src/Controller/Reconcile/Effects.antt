-- ===== src/Controller/Reconcile/Effects.antt =====
-- What the changes of the state in a reconciliation do to the effects: they set metrics.
use mlb_controller.Base.{
  ℕ, Bool, true, false, not, ◌&&◌, List, [], ◌∷◌, Str, ◌==◌, str_eq, if◌then◌else◌, is_some, All,
  All-append, Bool-cases, inl, inr,
}
use mlb_controller.Base.GoMap
use mlb_controller.Base.GoMap.{GoMap}
use mlb_controller.Base.Text.{has_prefix, trim_prefix}
use mlb_controller.Domain.Model.{Service, Upstream}
use mlb_controller.Controller.Env.{
  Controller, Effect, update_backends_total, lb_name, slash, service_key,
}
use mlb_controller.Controller.Env.Keeps.{Keeps}
use mlb_controller.Controller.Reconcile.{
  populate, refresh_services, forget_stale, forget_stales, store_desired, store_all,
  commit_upstreams,
}

-- A property of all effects, which the metrics have.
module _ (J : Effect → Type 0)
    (total : (name : Str) (n : ℕ) → J (update_backends_total name n)) where
  abbrev Holds : Controller → Type 0
  Holds c = All J c.effects

  populate-Holds :
      (lb : Str) (svcs : List Service) (c : Controller) → Holds c → Holds (populate lb svcs c)
  unfolding populate
  populate-Holds lb [] c h = h
  populate-Holds lb (svc ∷ svcs) c h = populate-Holds lb svcs _ (go (not (lb_name svc == lb)))
    where
      go :
          (b : Bool)
          → Holds (
              if b then c else record c {
                state = record c.state {
                  services = GoMap.insert (service_key svc) svc c.state.services;
                };
                last_known_services =
                    if is_some (GoMap.lookup (service_key svc) c.last_known_services)
                    then c.last_known_services
                    else GoMap.insert (service_key svc) svc c.last_known_services;
              })
      go true = h
      go false = h

  pub refresh-Holds : (lb : Str) (svcs : List Service) → Keeps Holds (refresh_services lb svcs)
  unfolding refresh_services
  refresh-Holds lb svcs = record { at = populate-Holds lb svcs }

  forget_stale-Holds :
      (lb : Str) (desired : GoMap Upstream) (key : Str) (c : Controller)
      → Holds c
      → Holds (forget_stale lb desired key c)
  unfolding forget_stale
  forget_stale-Holds lb desired key c h =
      elim (Bool-cases (
        has_prefix key (slash lb [])
        && not (is_some (GoMap.lookup (trim_prefix key (slash lb [])) desired)))) [
          | inl t ↦ rw t (All-append J c.effects _ h (total _ _, tt))
          | inr f ↦ rw f h
        ]

  forget_stales-Holds :
      (lb : Str) (desired : GoMap Upstream) (keys : List Str) (c : Controller)
      → Holds c
      → Holds (forget_stales lb desired keys c)
  unfolding forget_stales
  forget_stales-Holds lb desired [] c h = h
  forget_stales-Holds lb desired (k ∷ ks) c h =
      forget_stales-Holds lb desired ks _ (forget_stale-Holds lb desired k c h)

  store_desired-Holds :
      (lb name : Str) (up : Upstream) (c : Controller)
      → Holds c
      → Holds (store_desired lb name up c)
  unfolding store_desired
  store_desired-Holds lb name up c h = elim (Bool-cases (not up.preserve_existing_backends)) [
    | inl t ↦ rw t (All-append J c.effects _ h (total _ _, tt))
    | inr f ↦ rw f h
  ]

  store_all-Holds :
      (lb : Str) (desired : GoMap Upstream) (c : Controller)
      → Holds c
      → Holds (store_all lb desired c)
  unfolding store_all
  store_all-Holds lb [] c h = h
  store_all-Holds lb ((name, up) ∷ m) c h =
      store_all-Holds lb m _ (store_desired-Holds lb name up c h)

  pub commit-Holds :
      (lb : Str) (desired : GoMap Upstream) → Keeps Holds (commit_upstreams lb desired)
  unfolding commit_upstreams
  commit-Holds lb desired = record {
    at = λ c h.
        store_all-Holds lb desired _
          (forget_stales-Holds lb desired (GoMap.keys c.state.upstreams) c h);
  }
