-- ===== src/Nginx/SyncAll.antt =====
-- `SyncAllUpstreams` of internal/adapters/loadbalancer/nginx/nginx.go.
pub mod Changes
pub mod Spared
use mlb_controller.Base.{
  Bool, true, false, not, ◌&&◌, ◌||◌, List, [], ◌∷◌, ◌++◌, Option, none, some, Str, ◌==◌, str_eq,
  if◌then◌else◌, is_some, str_order,
}
use mlb_controller.Base.GoMap
use mlb_controller.Base.GoMap.{GoMap}
use mlb_controller.Base.Sort
use mlb_controller.Domain.Model.{Backend, Upstream}
use mlb_controller.Nginx.Address.{format_server_addr}
use mlb_controller.Nginx.Sync.{
  Adapter, NginxEnv, NginxError, both, sync_failed, semaphore_error, remove_orphan_failed, Answer,
  answer, failure, remove_server, Collecting, append_error, send, refresh_cache, invalidate_cache,
  sync_upstream,
}

combine : NginxError → List NginxError → NginxError
combine e [] = e
combine e (d ∷ ds) = both e (combine d ds)

-- The errors of one upstream make one error.
wrapped : Str → List NginxError → List NginxError → List NginxError
unfolding combine
wrapped name errors [] = errors
wrapped name errors (e ∷ es) = errors ++ sync_failed name (combine e es) ∷ []

-- One round of the loop over the desired upstreams; the flag is `PreserveExistingBackends`.
sync_one : NginxEnv → Upstream → Bool → List NginxError → Collecting
unfolding sync_upstream wrapped
sync_one env up true errors a = (errors, a)
sync_one env up false errors a = let r = sync_upstream env up a in (wrapped up.name errors r.0, r.1)

-- The loop over the desired upstreams, which skips the preserved ones.
unfoldable pub sync_desired : NginxEnv → GoMap Upstream → List NginxError → Collecting
unfolding sync_one
sync_desired env [] errors a = (errors, a)
sync_desired env ((key, up) ∷ m) errors a =
    let r = sync_one env up up.preserve_existing_backends errors a in sync_desired env m r.0 r.1

succeeded : Answer Str → Bool
succeeded (answer body) = true
succeeded (failure e) = false

-- The loop over the servers of an orphaned upstream; the flag tells whether one was removed.
unfoldable pub remove_orphan :
    NginxEnv
    → Str
    → Str
    → List Backend
    → Bool
    → List NginxError
    → Adapter
    → Bool × List NginxError × Adapter
unfolding send format_server_addr succeeded
remove_orphan env url name [] changed errors a = (changed, errors, a)
remove_orphan env url name (backend ∷ backends) changed errors a =
    let addr = format_server_addr backend.ip backend.port in
    let r = send env url (remove_server name addr) a in
    remove_orphan env url name backends (changed || succeeded r.0)
      (append_error (remove_orphan_failed url addr name) r.0 errors) r.1

-- The loop over the sorted names of the upstreams that NGINX has.
unfoldable pub remove_orphans :
    NginxEnv
    → Str
    → GoMap Upstream
    → GoMap (List Backend)
    → Bool
    → List NginxError
    → Adapter
    → Bool × List NginxError × Adapter
unfolding remove_orphan
remove_orphans env url desired [] changed errors a = (changed, errors, a)
remove_orphans env url desired ((name, backends) ∷ m) changed errors a =
    let r : Bool × List NginxError × Adapter =
      if name == [] || is_some (GoMap.lookup name desired)
      then (changed, errors, a)
      else remove_orphan env url name backends changed errors a in
    remove_orphans env url desired m r.0 r.1 r.2

finish_prune : Str → Bool × List NginxError × Adapter → List NginxError × Adapter
unfolding invalidate_cache
finish_prune url (changed, errors, a) = (errors, if changed then invalidate_cache url a else a)

prune_state :
    NginxEnv
    → Str
    → GoMap Upstream
    → List NginxError
    → Answer (GoMap (List Backend)) × Adapter
    → List NginxError × Adapter
unfolding remove_orphans finish_prune Sort.sort
prune_state env url desired errors (failure e, a) = (errors ++ e ∷ [], a)
prune_state env url desired errors (answer all, a) =
    finish_prune url
      (remove_orphans env url desired (Sort.sort str_order (λ e. e.0) all) false errors a)

prune_acquired : NginxEnv → Str → GoMap Upstream → List NginxError → Answer (Unit {0}) → Collecting
unfolding refresh_cache prune_state
prune_acquired env url desired errors (failure e) a = (errors ++ semaphore_error url e ∷ [], a)
prune_acquired env url desired errors (answer u) a =
    prune_state env url desired errors (refresh_cache env url a)

unfoldable pub prune_clients : NginxEnv → List Str → GoMap Upstream → List NginxError → Collecting
unfolding prune_acquired
prune_clients env [] desired errors a = (errors, a)
prune_clients env (url ∷ urls) desired errors a =
    let r = prune_acquired env url desired errors (env.acquire url a.log) a in
    prune_clients env urls desired r.0 r.1

unfoldable pub sync_all_upstreams : NginxEnv → GoMap Upstream → Collecting
unfolding sync_desired prune_clients
sync_all_upstreams env desired a =
    let r = sync_desired env desired [] a in
    if not env.prune_orphans then r else prune_clients env env.clients desired r.0 r.1
