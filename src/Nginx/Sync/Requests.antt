-- ===== src/Nginx/Sync/Requests.antt =====
-- Which upstreams the requests of `SyncUpstream` change.
use mlb_controller.Base.{
  Bool, true, false, ◌&&◌, List, [], ◌∷◌, Option, none, some, Str, if◌then◌else◌, All, All-append,
  is_some, is_empty, suc,
}
use mlb_controller.Base.GoMap
use mlb_controller.Base.GoMap.{GoMap}
use mlb_controller.Domain.Model.{Backend, Upstream}
use mlb_controller.Nginx.Plan.{
  aggregate, current_backends, update_backends, remove_backends, in_order,
}
use mlb_controller.Nginx.Address.{format_server_addr}
use mlb_controller.Nginx.Sync.{
  Request, list_upstreams, add_server, remove_server, Adapter, NginxEnv, NginxError, Answer, answer,
  failure, send, cached, read_clock, store_answer, from_cache, refresh_cache, invalidate_cache,
  send_adds, send_removes, apply_plan, with_state, acquired, each_client, sync_upstream,
}

-- A request that changes no upstream but one of those that `P` holds of.
abbrev pub Changes : (Str → Type 0) → Request → Type 0
Changes P list_upstreams = Unit
Changes P (add_server name addr weight) = P name
Changes P (remove_server name addr) = P name

abbrev pub OnlyChanges : (Str → Type 0) → Adapter → Type 0
OnlyChanges P a = All (λ e. Changes P e.1) a.log

module _ (P : Str → Type 0) (env : NginxEnv) (url : Str) where
  pub send-OnlyChanges :
      (r : Request) (a : Adapter)
      → Changes P r
      → OnlyChanges P a
      → OnlyChanges P (send env url r a).1
  unfolding send
  send-OnlyChanges r a p h = All-append (λ e. Changes P e.1) a.log ((url, r) ∷ []) h (p, tt)

  stored-OnlyChanges :
      (r : Answer Str × Adapter) → OnlyChanges P r.1 → OnlyChanges P (store_answer env url r).1
  unfolding store_answer
  stored-OnlyChanges (answer body, a) h = h
  stored-OnlyChanges (failure e, a) h = h

  clock-OnlyChanges : (a : Adapter) → OnlyChanges P a → OnlyChanges P (read_clock url a)
  unfolding read_clock
  clock-OnlyChanges a h = go (is_some (GoMap.lookup url a.cache_exp))
    where
      go : (b : Bool) → OnlyChanges P (if b then record a { readings = suc a.readings } else a)
      go true = h
      go false = h

  from_cache-OnlyChanges :
      (o : Option (GoMap (List Backend))) (a : Adapter)
      → OnlyChanges P a
      → OnlyChanges P (from_cache env url o a).1
  unfolding from_cache
  from_cache-OnlyChanges none a h =
      stored-OnlyChanges (send env url list_upstreams a) (send-OnlyChanges list_upstreams a tt h)
  from_cache-OnlyChanges (some state) a h = h

  pub refresh-OnlyChanges :
      (a : Adapter) → OnlyChanges P a → OnlyChanges P (refresh_cache env url a).1
  unfolding refresh_cache
  refresh-OnlyChanges a h =
      from_cache-OnlyChanges (cached env url a) (read_clock url a) (clock-OnlyChanges a h)

  pub invalidate-OnlyChanges :
      (b : Bool) (a : Adapter)
      → OnlyChanges P a
      → OnlyChanges P (if b then a else invalidate_cache url a)
  unfolding invalidate_cache
  invalidate-OnlyChanges true a h = h
  invalidate-OnlyChanges false a h = h

  module _ (name : Str) (p : P name) where
    adds-OnlyChanges :
        (m : GoMap Backend) (errors : List NginxError) (a : Adapter)
        → OnlyChanges P a
        → OnlyChanges P (send_adds env url name m errors a).1
    unfolding send_adds
    adds-OnlyChanges [] errors a h = h
    adds-OnlyChanges ((key, backend) ∷ m) errors a h = adds-OnlyChanges m _ _ (
        send-OnlyChanges
          (add_server name (format_server_addr backend.ip backend.port) backend.weight) a p h)

    removes-OnlyChanges :
        (m : GoMap Backend) (errors : List NginxError) (a : Adapter)
        → OnlyChanges P a
        → OnlyChanges P (send_removes env url name m errors a).1
    unfolding send_removes
    removes-OnlyChanges [] errors a h = h
    removes-OnlyChanges ((key, backend) ∷ m) errors a h =
        removes-OnlyChanges m _ _
          (send-OnlyChanges (remove_server name (format_server_addr backend.ip backend.port)) a p h)

    plan-OnlyChanges :
        (updates removes : GoMap Backend) (errors : List NginxError) (a : Adapter)
        → OnlyChanges P a
        → OnlyChanges P (apply_plan env url name updates removes errors a).1
    unfolding apply_plan
    plan-OnlyChanges updates removes errors a h =
        invalidate-OnlyChanges (is_empty updates && is_empty removes) _ (
          removes-OnlyChanges (in_order removes) _ _
            (adds-OnlyChanges (in_order updates) errors a h))

    with_state-OnlyChanges :
        (desired : GoMap Backend) (errors : List NginxError)
        (r : Answer (GoMap (List Backend)) × Adapter)
        → OnlyChanges P r.1
        → OnlyChanges P (with_state env url name desired errors r).1
    unfolding with_state
    with_state-OnlyChanges desired errors (failure e, a) h = h
    with_state-OnlyChanges desired errors (answer all, a) h =
        plan-OnlyChanges (update_backends (current_backends name all) desired)
          (remove_backends desired (current_backends name all) []) errors a h

    acquired-OnlyChanges :
        (desired : GoMap Backend) (errors : List NginxError) (r : Answer (Unit {0})) (a : Adapter)
        → OnlyChanges P a
        → OnlyChanges P (acquired env url name desired errors r a).1
    unfolding acquired
    acquired-OnlyChanges desired errors (failure e) a h = h
    acquired-OnlyChanges desired errors (answer u) a h =
        with_state-OnlyChanges desired errors (refresh_cache env url a) (refresh-OnlyChanges a h)

clients-OnlyChanges :
    (P : Str → Type 0) (env : NginxEnv) (urls : List Str) (name : Str) (desired : GoMap Backend)
    (errors : List NginxError) (a : Adapter)
    → P name
    → OnlyChanges P a
    → OnlyChanges P (each_client env urls name desired errors a).1
unfolding each_client
clients-OnlyChanges P env [] name desired errors a p h = h
clients-OnlyChanges P env (url ∷ urls) name desired errors a p h =
    clients-OnlyChanges P env urls name desired _ _ p
      (acquired-OnlyChanges P env url name p desired errors (env.acquire url a.log) a h)

pub sync_upstream-OnlyChanges :
    (P : Str → Type 0) (env : NginxEnv) (up : Upstream) (a : Adapter)
    → P up.name
    → OnlyChanges P a
    → OnlyChanges P (sync_upstream env up a).1
unfolding sync_upstream
sync_upstream-OnlyChanges P env up a p h =
    clients-OnlyChanges P env env.clients up.name (aggregate up.backends []) [] a p h
