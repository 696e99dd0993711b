-- ===== src/Nginx/Sync.antt =====
-- `refreshCache`, `SyncUpstream` and `SyncAllUpstreams` of
-- internal/adapters/loadbalancer/nginx/nginx.go. The clients, which the code serves concurrently,
-- share nothing but the collected errors and the caches; the model serves them in turn.
pub mod Requests
pub mod Served
pub mod Logs
pub mod Reaching
pub mod Clean
pub mod Elsewhere
pub mod Clients
use mlb_controller.Base.{
  Bool, true, false, not, ◌&&◌, ◌||◌, List, [], ◌∷◌, ◌++◌, Option, none, some, Str, ◌==◌, str_eq,
  if◌then◌else◌, ℤ, ℕ, suc, ◌+◌, ltb, is_some, is_empty, str_order,
}
use mlb_controller.Base.GoMap
use mlb_controller.Base.GoMap.{GoMap}
use mlb_controller.Base.Sort
use mlb_controller.Domain.Model.{Backend, Upstream}
use mlb_controller.Nginx.Address.{format_server_addr}
use mlb_controller.Nginx.Parse.{parse_bulk_nginx_backends}
use mlb_controller.Nginx.Plan.{
  aggregate, current_backends, update_backends, remove_backends, in_order,
}

-- The requests to the API of NGINX, which `buildAddPath` and `buildRemovePath` write as paths.
pub data Request : Type 0 where
  list_upstreams : Request
  add_server : Str → Str → ℤ → Request
  remove_server : Str → Str → Request

pub data NginxError : Type 0 where
  request_error : Str → NginxError
  semaphore_error : Str → NginxError → NginxError
  fetch_failed : Str → NginxError → NginxError
  add_failed : Str → NginxError → NginxError
  remove_failed : Str → NginxError → NginxError
  remove_orphan_failed : Str → Str → Str → NginxError → NginxError
  sync_failed : Str → NginxError → NginxError
  both : NginxError → NginxError → NginxError

pub data Answer (A : Type 0) : Type 0 where
  answer : A → Answer A
  failure : NginxError → Answer A

-- The requests sent so far, each with the `baseURL` of its client.
abbrev pub Log : Type 0
Log = List (Str × Request)

-- The fields of `NginxAdapter` that change, the requests so far and the readings of the clock.
pub record Adapter : Type 0 where
  pub cache : GoMap (GoMap (List Backend))
  pub cache_exp : GoMap ℕ
  pub log : Log
  pub readings : ℕ

-- The clients by their `baseURL`, the configuration, and the world: what the clock shows at each
-- reading, whether the semaphore is acquired, and what the servers answer, after the requests so far.
pub record NginxEnv : Type 0 where
  pub clients : List Str
  pub prune_orphans : Bool
  pub clock : ℕ → ℕ
  pub acquire : Str → Log → Answer (Unit {0})
  pub do_request : Log → Str → Request → Answer Str

-- Two seconds, in nanoseconds.
abbrev cache_ttl : ℕ
cache_ttl = 2000000000

unfoldable pub send : NginxEnv → Str → Request → Adapter → Answer Str × Adapter
send env url request a =
    (env.do_request a.log url request, record a { log = a.log ++ (url, request) ∷ [] })

-- The cached answer while `time.Now()` lies before the expiry.
unfoldable pub cached : NginxEnv → Str → Adapter → Option (GoMap (List Backend))
cached env url a = elim (GoMap.lookup url a.cache_exp) [
  | none ↦ none
  | some exp ↦ if ltb (env.clock a.readings) exp then GoMap.lookup url a.cache else none
]

-- The clock is read only where there is an expiry.
read_clock : Str → Adapter → Adapter
read_clock url a =
    if is_some (GoMap.lookup url a.cache_exp) then record a { readings = suc a.readings } else a

store_answer : NginxEnv → Str → Answer Str × Adapter → Answer (GoMap (List Backend)) × Adapter
unfolding parse_bulk_nginx_backends
store_answer env url (failure e, a) = (failure (fetch_failed url e), a)
store_answer env url (answer body, a) = (
  answer (parse_bulk_nginx_backends body),
  record a {
    cache = GoMap.insert url (parse_bulk_nginx_backends body) a.cache;
    cache_exp = GoMap.insert url (env.clock a.readings + cache_ttl) a.cache_exp;
    readings = suc a.readings;
  },
)

from_cache :
    NginxEnv
    → Str
    → Option (GoMap (List Backend))
    → Adapter
    → Answer (GoMap (List Backend)) × Adapter
unfolding send store_answer
from_cache env url (some state) a = (answer state, a)
from_cache env url none a = store_answer env url (send env url list_upstreams a)

unfoldable pub refresh_cache : NginxEnv → Str → Adapter → Answer (GoMap (List Backend)) × Adapter
unfolding cached read_clock from_cache
refresh_cache env url a = from_cache env url (cached env url a) (read_clock url a)

unfoldable pub invalidate_cache : Str → Adapter → Adapter
invalidate_cache url a = record a {
  cache = GoMap.delete url a.cache;
  cache_exp = GoMap.delete url a.cache_exp;
}

-- An operation that collects errors.
abbrev pub Collecting : Type 0
Collecting = Adapter → List NginxError × Adapter

abbrev pub append_error : (NginxError → NginxError) → Answer Str → List NginxError → List NginxError
append_error f (answer body) errors = errors
append_error f (failure e) errors = errors ++ f e ∷ []

unfoldable pub send_adds : NginxEnv → Str → Str → GoMap Backend → List NginxError → Collecting
unfolding send format_server_addr
send_adds env url name [] errors a = (errors, a)
send_adds env url name ((key, backend) ∷ m) errors a =
    let r =
      send env url (add_server name (format_server_addr backend.ip backend.port) backend.weight)
        a in
    send_adds env url name m (append_error (add_failed url) r.0 errors) r.1

unfoldable pub send_removes : NginxEnv → Str → Str → GoMap Backend → List NginxError → Collecting
unfolding send format_server_addr
send_removes env url name [] errors a = (errors, a)
send_removes env url name ((key, backend) ∷ m) errors a =
    let r = send env url (remove_server name (format_server_addr backend.ip backend.port)) a in
    send_removes env url name m (append_error (remove_failed url) r.0 errors) r.1

-- What happens to one client once its servers are known.
unfoldable pub apply_plan :
    NginxEnv → Str → Str → GoMap Backend → GoMap Backend → List NginxError → Collecting
unfolding send_adds send_removes in_order invalidate_cache
apply_plan env url name updates removes errors a =
    let added = send_adds env url name (in_order updates) errors a in
    let removed = send_removes env url name (in_order removes) added.0 added.1 in
    (
      removed.0,
      if is_empty updates && is_empty removes then removed.1 else invalidate_cache url removed.1,
    )

with_state :
    NginxEnv
    → Str
    → Str
    → GoMap Backend
    → List NginxError
    → Answer (GoMap (List Backend)) × Adapter
    → List NginxError × Adapter
unfolding apply_plan update_backends remove_backends current_backends
with_state env url name desired errors (failure e, a) = (errors ++ e ∷ [], a)
with_state env url name desired errors (answer all, a) =
    apply_plan env url name (update_backends (current_backends name all) desired)
      (remove_backends desired (current_backends name all) []) errors a

unfoldable pub acquired :
    NginxEnv → Str → Str → GoMap Backend → List NginxError → Answer (Unit {0}) → Collecting
unfolding refresh_cache with_state
acquired env url name desired errors (failure e) a = (errors ++ semaphore_error url e ∷ [], a)
acquired env url name desired errors (answer u) a =
    with_state env url name desired errors (refresh_cache env url a)

unfoldable pub each_client :
    NginxEnv → List Str → Str → GoMap Backend → List NginxError → Collecting
unfolding acquired
each_client env [] name desired errors a = (errors, a)
each_client env (url ∷ urls) name desired errors a =
    let r = acquired env url name desired errors (env.acquire url a.log) a in
    each_client env urls name desired r.0 r.1

unfoldable pub sync_upstream : NginxEnv → Upstream → Collecting
unfolding each_client aggregate
sync_upstream env up a = each_client env env.clients up.name (aggregate up.backends []) [] a
