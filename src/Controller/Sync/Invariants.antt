-- ===== src/Controller/Sync/Invariants.antt =====
-- What `syncUpstreamsForService` keeps, whatever it returns: a rule for invariants that its five
-- kinds of steps respect.
use mlb_controller.Base.{
  ◌||◌, ◌≡◌, refl, ap, List, [], Option, none, some, Str, ◌==◌, str_eq, length,
}
use mlb_controller.Base.GoMap
use mlb_controller.Domain.Model.{Service, Backend, Upstream}
use mlb_controller.Controller.Env.{
  Env, Controller, Action, Result, ok, err, sync_upstream, increment_sync_errors,
  update_backends_total, observe_sync_duration, ◌>>=◌, raise, emit, lb_name, upstream_name, slash,
  get_load_balancer_config, LoadBalancerAdapter, adapter_not_found,
}
use mlb_controller.Controller.Env.Keeps.{Keeps, Keeps-pure, Keeps-raise, Keeps-bind, Keeps-if}
use mlb_controller.Controller.Fallback.{Fallback, push, preserve, resolve}
use mlb_controller.Controller.Sync.{
  sync_load_balancer_upstream, call_adapter, answered, counted, report, reported, merge_others,
  put_upstream, push_upstream, resolved, found_upstream, service_upstream,
  sync_upstreams_for_service,
}

-- The steps that respect `P`; `Q` tells which upstreams may be pushed.
pub record Respects (P : Controller → Type 0) (Q : Upstream → Type 0) : Type 0 where
  pub errors : (name : Str) (c : Controller) → P c → P (emit (increment_sync_errors name) c).1
  pub duration : (name : Str) (c : Controller) → P c → P (emit (observe_sync_duration name) c).1
  pub total :
      (name : Str) (bs : List Backend) (c : Controller)
      → P c
      → P (emit (update_backends_total name (length bs)) c).1
  pub stored : (key : Str) (up : Upstream) (c : Controller) → P c → P (put_upstream key up c).1
  pub pushed :
      (up : Upstream) (c : Controller)
      → Q up
      → P c
      → P (emit (sync_upstream up.load_balancer up) c).1

module _ (P : Controller → Type 0) (Q : Upstream → Type 0) (r : Respects P Q) (env : Env) where
  answered-Keeps : (up : Upstream) (a : Result (Unit {0})) → Keeps P (answered up a)
  unfolding answered
  answered-Keeps up (ok u) = Keeps-pure P tt
  answered-Keeps up (err e) = Keeps-raise P _

  adapter-Keeps :
      (up : Upstream) → Q up → (o : Option LoadBalancerAdapter) → Keeps P (call_adapter up o)
  unfolding call_adapter
  adapter-Keeps up q none = Keeps-raise P (adapter_not_found up.load_balancer)
  adapter-Keeps up q (some adapter) =
      Keeps-bind P _ _ (record { at = λ c h. r.pushed up c q h })
        λ _. answered-Keeps up (adapter.sync_upstream up)

  pub sync_load_balancer_upstream-Keeps :
      (up : Upstream) → Q up → Keeps P (sync_load_balancer_upstream env up)
  unfolding sync_load_balancer_upstream
  sync_load_balancer_upstream-Keeps up q =
      adapter-Keeps up q (GoMap.lookup up.load_balancer env.load_balancers)

  pub counted-Keeps : {A : Type 0} (name : Str) (a : Result A) → Keeps P (counted name a)
  unfolding counted
  counted-Keeps name (ok a) = Keeps-pure P a
  counted-Keeps name (err e) =
      Keeps-bind P (emit (increment_sync_errors name)) (λ _. raise e)
        (record { at = r.errors name }) (λ _. Keeps-raise P e)

  reported-Keeps : (name : Str) (a : Result (Unit {0}) × Controller) → P a.1 → P (reported name a).1
  unfolding reported
  reported-Keeps name (ok u, c) h = h
  reported-Keeps name (err e, c) h = r.errors name c h

  pub report-Keeps : (name : Str) (m : Action (Unit {0})) → Keeps P m → Keeps P (report name m)
  unfolding report
  report-Keeps name m k = record { at = λ c h. reported-Keeps name (m c) (k.at c h) }

  push_upstream-Keeps : (svc : Service) (up : Upstream) → Q up → Keeps P (push_upstream env svc up)
  unfolding push_upstream
  push_upstream-Keeps svc up q =
      Keeps-bind P _ _ (record { at = r.total (upstream_name svc) up.backends })
        λ _.
          Keeps-bind P _ _ (record { at = r.stored (slash (lb_name svc) (upstream_name svc)) up })
            λ _.
              Keeps-bind P _ _
                (report-Keeps (upstream_name svc) _ (sync_load_balancer_upstream-Keeps up q))
                λ _. record { at = r.duration (upstream_name svc) }

  -- Every upstream that the fallback lets through may be pushed.
  abbrev MayPush : Service → Upstream → Type 0
  MayPush svc up =
      (bs cs : List Backend)
      → resolve env (get_load_balancer_config env (lb_name svc)) bs ≡ push cs
      → Q (record up { backends = cs })

  resolved-Keeps :
      (svc : Service) (up : Upstream) (f : Fallback)
      → ((cs : List Backend) → f ≡ push cs → Q (record up { backends = cs }))
      → Keeps P (resolved env svc up f)
  unfolding resolved
  resolved-Keeps svc up preserve q = Keeps-pure P tt
  resolved-Keeps svc up (push cs) q =
      push_upstream-Keeps svc (record up { backends = cs }) (q cs refl)

  found_upstream-Keeps :
      (svc : Service) (o : Option Upstream)
      → ((up : Upstream) → o ≡ some up → MayPush svc up)
      → Keeps P (found_upstream env svc o)
  unfolding found_upstream
  found_upstream-Keeps svc none q = Keeps-pure P tt
  found_upstream-Keeps svc (some up) q =
      Keeps-bind P _ _ (counted-Keeps (upstream_name svc) _) λ all.
        Keeps-bind P _ _ (counted-Keeps (upstream_name svc) (merge_others env svc up.backends all))
          λ bs. resolved-Keeps svc up _ (q up refl bs)

  counted_found-Keeps :
      (svc : Service) (a : Result (Option Upstream))
      → ((up : Upstream) → a ≡ ok (some up) → MayPush svc up)
      → Keeps P (counted (upstream_name svc) a >>= found_upstream env svc)
  unfolding counted ◌>>=◌
  counted_found-Keeps svc (ok o) q = record {
    at = (found_upstream-Keeps svc o (λ up e. q up (ap ok e))).at;
  }
  counted_found-Keeps svc (err e) q = record { at = r.errors (upstream_name svc) }

  pub sync_upstreams_for_service-Keeps :
      (svc : Service)
      → ((up : Upstream) → service_upstream env svc ≡ ok (some up) → MayPush svc up)
      → Keeps P (sync_upstreams_for_service env svc)
  unfolding sync_upstreams_for_service
  sync_upstreams_for_service-Keeps svc q =
      Keeps-if P (lb_name svc == [] || upstream_name svc == []) _ _ (Keeps-pure P tt)
        (counted_found-Keeps svc (service_upstream env svc) q)
