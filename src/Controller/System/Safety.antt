-- ===== src/Controller/System/Safety.antt =====
-- Why the controller sends an upstream without servers, in every run.
use mlb_controller.Base.{
  str_eq, refl, inl, inr, List, [], ◌∷◌, ◌++◌, Str, some, All-append, All-map, Exists-append,
}
use mlb_controller.Domain.Config.{Config}
use mlb_controller.Domain.Model.{Service, Upstream}
use mlb_controller.Controller.Env.{
  Env, Controller, Effect, Result, ok, err, queue_add, queue_forget, queue_add_rate_limited,
  update_backends_total, increment_sync_errors, observe_sync_duration, sync_upstreams_inc,
  sync_upstream, sync_all_upstreams, emit,
}
use mlb_controller.Controller.Sync.{put_upstream}
use mlb_controller.Controller.Sync.Invariants.{Respects}
use mlb_controller.Controller.Sync.SafetyNet.{pushes-MayPush}
use mlb_controller.Controller.Events.Queueing.{
  service_event-Holds, pod_event-Holds, node_event-Holds,
}
use mlb_controller.Controller.Handler.{
  delete_upstream, forget_service, remember_service, after_sync, process_next_item, sync_handler,
}
use mlb_controller.Controller.Handler.Invariants.{sync_handler-Keeps}
use mlb_controller.Controller.Reconcile.Replacing.{MayReplaceAll, apply_fallbacks-safe}
use mlb_controller.Controller.Reconcile.Effects.{refresh-Holds, commit-Holds}
use mlb_controller.Controller.Reconcile.Invariants.{
  RespectsAll, sync_single-Keeps, sync_upstreams-Keeps,
}
use mlb_controller.Controller.System.{
  Step, service_event, pod_event, node_event, work, tick, sync_all, Reach, start, later,
  new_controller,
}
use mlb_controller.Controller.System.Justified.{drained, IsPushed, IsJustified, AreJustified}

seen-IsJustified :
    (now seen : List Env) (e : Effect) → IsJustified seen e → IsJustified (now ++ seen) e
seen-IsJustified now seen (queue_add key) h = tt
seen-IsJustified now seen (queue_forget key) h = tt
seen-IsJustified now seen (queue_add_rate_limited key) h = tt
seen-IsJustified now seen (update_backends_total name n) h = tt
seen-IsJustified now seen (increment_sync_errors name) h = tt
seen-IsJustified now seen (observe_sync_duration name) h = tt
seen-IsJustified now seen sync_upstreams_inc h = tt
seen-IsJustified now seen (sync_upstream lb up) h = (h.0, Exists-append (IsPushed up) now seen h.1)
seen-IsJustified now seen (sync_all_upstreams lb m) h =
    Exists-append (λ env. MayReplaceAll env lb m) now seen h

emit-AreJustified :
    (seen : List Env) (e : Effect) (c : Controller)
    → IsJustified seen e
    → AreJustified seen c
    → AreJustified seen (emit e c).1
unfolding emit
emit-AreJustified seen e c j h = All-append (IsJustified seen) c.effects (e ∷ []) h (j, tt)

-- The operations that change only the state.
kept_state :
    (seen : List Env)
    → ((key : Str) (up : Upstream) (c : Controller)
        → AreJustified seen c
        → AreJustified seen (put_upstream key up c).1)
      × ((key : Str) (c : Controller)
          → AreJustified seen c
          → AreJustified seen (delete_upstream key c).1)
      × ((key : Str) (c : Controller)
          → AreJustified seen c
          → AreJustified seen (forget_service key c).1)
      × ((key : Str) (svc : Service) (c : Controller)
          → AreJustified seen c
          → AreJustified seen (remember_service key svc c).1)
unfolding put_upstream delete_upstream forget_service remember_service
kept_state seen = (λ key up c h. h, λ key c h. h, λ key c h. h, λ key svc c h. h)

widened :
    (env : Env) (seen : List Env) (c : Controller)
    → AreJustified seen c
    → AreJustified (env ∷ seen) c
widened env seen c h =
    All-map (IsJustified seen) (IsJustified (env ∷ seen)) (seen-IsJustified (env ∷ []) seen)
      c.effects h

module _ (env : Env) (seen : List Env) where
  AreJustified-Respects : Respects (AreJustified (env ∷ seen)) (λ up. IsPushed up env)
  AreJustified-Respects = record {
    errors = λ name c h. emit-AreJustified (env ∷ seen) _ c tt h;
    duration = λ name c h. emit-AreJustified (env ∷ seen) _ c tt h;
    total = λ name bs c h. emit-AreJustified (env ∷ seen) _ c tt h;
    stored = (kept_state (env ∷ seen)).0;
    pushed = λ up c q h. emit-AreJustified (env ∷ seen) _ c (refl, inl q) h;
  }

  handler-AreJustified :
      (key : Str) (c : Controller)
      → AreJustified (env ∷ seen) c
      → AreJustified (env ∷ seen) (sync_handler env key c).1
  handler-AreJustified key c h =
      let (put, deleted, forgot, remembered) = kept_state (env ∷ seen) in
      (sync_handler-Keeps (AreJustified (env ∷ seen)) (λ up. IsPushed up env) AreJustified-Respects
          env (λ svc up e bs cs r. inl (pushes-MayPush env svc up e bs cs r)) deleted
          (λ k last left alone. inr (drained env k last left alone)) forgot remembered key).at
        c h

  after_sync-AreJustified :
      (key : Str) (r : Result (Unit {0}) × Controller)
      → AreJustified (env ∷ seen) r.1
      → AreJustified (env ∷ seen) (after_sync key r).1
  unfolding after_sync
  after_sync-AreJustified key (ok u, c) h = emit-AreJustified (env ∷ seen) (queue_forget key) c tt h
  after_sync-AreJustified key (err e, c) h =
      emit-AreJustified (env ∷ seen) (queue_add_rate_limited key) c tt h

  item-AreJustified :
      (key : Str) (c : Controller)
      → AreJustified (env ∷ seen) c
      → AreJustified (env ∷ seen) (process_next_item env (some key) c).1
  unfolding process_next_item
  item-AreJustified key c h =
      after_sync-AreJustified key (sync_handler env key c) (handler-AreJustified key c h)

  AreJustified-RespectsAll :
      RespectsAll (AreJustified (env ∷ seen)) (λ lb m. MayReplaceAll env lb m)
  AreJustified-RespectsAll = record {
    refreshed =
        λ lb svcs c h. (refresh-Holds (IsJustified (env ∷ seen)) (λ name n. tt) lb svcs).at c h;
    committed = λ lb desired c q h.
        (commit-Holds (IsJustified (env ∷ seen)) (λ name n. tt) lb desired).at c h;
    sent = λ lb desired c q h. emit-AreJustified (env ∷ seen) _ c (inl q) h;
    errors = λ name c h. emit-AreJustified (env ∷ seen) _ c tt h;
    counter = λ c h. emit-AreJustified (env ∷ seen) _ c tt h;
    duration = λ name c h. emit-AreJustified (env ∷ seen) _ c tt h;
  }

Step-AreJustified :
    {config : Config} {now : List Env} {c d : Controller} (seen : List Env)
    → Step config now c d
    → AreJustified seen c
    → AreJustified (now ++ seen) d
Step-AreJustified seen (service_event event c) h =
    service_event-Holds (IsJustified seen) (λ key. tt) event c h
Step-AreJustified seen (pod_event event c) h =
    pod_event-Holds (IsJustified seen) (λ key. tt) event c h
Step-AreJustified seen (node_event event c) h =
    node_event-Holds (IsJustified seen) (λ key. tt) event c h
Step-AreJustified seen (work env same key c queued) h =
    item-AreJustified env seen key c (widened env seen c h)
Step-AreJustified seen (tick env same lb adapter c found) h =
    (sync_single-Keeps (AreJustified (env ∷ seen)) (λ lb m. MayReplaceAll env lb m)
        (AreJustified-RespectsAll env seen) env
        (λ lb svcs d k. apply_fallbacks-safe env lb d.state.upstreams _) lb adapter).at
      c (widened env seen c h)
Step-AreJustified seen (sync_all env same c) h =
    (sync_upstreams-Keeps (AreJustified (env ∷ seen)) (λ lb m. MayReplaceAll env lb m)
        (AreJustified-RespectsAll env seen) env
        (λ lb svcs d k. apply_fallbacks-safe env lb d.state.upstreams _)).at
      c (widened env seen c h)

-- In every run of the controller, whatever the order of events, workers and tickers and whatever fails:
-- each upstream that `syncUpstreamsForService` or a clean-up sent to a load balancer has servers, or
-- empty upstreams are allowed for that load balancer, or, in what a step saw, the service under some
-- key was gone or named another upstream and no other listed service had the labels of this one; and
-- each reconciliation sent an upstream without servers that is not marked as preserved only where empty
-- upstreams are allowed.
pub runs_justified :
    {config : Config} {seen : List Env} {c : Controller} → Reach config seen c → AreJustified seen c
unfolding new_controller
runs_justified start = tt
runs_justified (later {seen = seen} r s) = Step-AreJustified seen s (runs_justified r)
