-- ===== src/Nginx/SyncAll/Changes.antt =====
-- Which upstreams the requests of `SyncAllUpstreams` of internal/adapters/loadbalancer/nginx/nginx.go
-- name.
use mlb_controller.Base.{
  Bool, true, false, not, ◌||◌, ◌≡◌, ◌≢◌, refl, List, [], ◌∷◌, none, Str, ◌==◌, str_eq, str_beq_iff,
  str_order, if◌then◌else◌, All, is_some, arith,
}
use mlb_controller.Base.GoMap
use mlb_controller.Base.GoMap.{GoMap}
use mlb_controller.Base.Sort
use mlb_controller.Domain.Model.{Backend, Upstream}
use mlb_controller.Nginx.Address.{format_server_addr}
use mlb_controller.Nginx.Sync.{
  Adapter, NginxEnv, NginxError, Answer, answer, failure, remove_server, refresh_cache,
  invalidate_cache,
}
use mlb_controller.Nginx.Sync.Requests.{
  OnlyChanges, send-OnlyChanges, refresh-OnlyChanges, sync_upstream-OnlyChanges,
}
use mlb_controller.Nginx.SyncAll.{
  sync_one, sync_desired, remove_orphan, remove_orphans, finish_prune, prune_state, prune_acquired,
  prune_clients, sync_all_upstreams,
}

-- The names of the desired upstreams that are not preserved satisfy `P`.
abbrev pub Covers : (Str → Type 0) → GoMap Upstream → Type 0
Covers P = All λ e. e.1.preserve_existing_backends ≡ false → P e.1.name

one-OnlyChanges :
    (P : Str → Type 0) (env : NginxEnv) (up : Upstream) (b : Bool) (errors : List NginxError)
    (a : Adapter)
    → (b ≡ false → P up.name)
    → OnlyChanges P a
    → OnlyChanges P (sync_one env up b errors a).1
unfolding sync_one
one-OnlyChanges P env up true errors a p o = o
one-OnlyChanges P env up false errors a p o = sync_upstream-OnlyChanges P env up a (p refl) o

desired-OnlyChanges :
    (P : Str → Type 0) (env : NginxEnv) (m : GoMap Upstream) (errors : List NginxError)
    (a : Adapter)
    → Covers P m
    → OnlyChanges P a
    → OnlyChanges P (sync_desired env m errors a).1
unfolding sync_desired
desired-OnlyChanges P env [] errors a h o = o
desired-OnlyChanges P env ((key, up) ∷ m) errors a h o =
    desired-OnlyChanges P env m _ _ h.1
      (one-OnlyChanges P env up up.preserve_existing_backends errors a h.0 o)

-- A name that the pruning may touch.
abbrev pub IsOrphan : GoMap Upstream → Str → Type 0
IsOrphan desired name = (name ≢ []) × (GoMap.lookup name desired ≡ none)

module _ (P : Str → Type 0) (env : NginxEnv) (url : Str) (desired : GoMap Upstream)
    (q : (n : Str) → IsOrphan desired n → P n) where
  orphan-OnlyChanges :
      (name : Str) (backends : List Backend) (changed : Bool) (errors : List NginxError)
      (a : Adapter)
      → P name
      → OnlyChanges P a
      → OnlyChanges P (remove_orphan env url name backends changed errors a).2
  unfolding remove_orphan
  orphan-OnlyChanges name [] changed errors a p o = o
  orphan-OnlyChanges name (backend ∷ backends) changed errors a p o =
      orphan-OnlyChanges name backends _ _ _ p (
        send-OnlyChanges P env url (remove_server name (format_server_addr backend.ip backend.port))
          a p o)

  orphans-OnlyChanges :
      (m : GoMap (List Backend)) (changed : Bool) (errors : List NginxError) (a : Adapter)
      → OnlyChanges P a
      → OnlyChanges P (remove_orphans env url desired m changed errors a).2
  unfolding remove_orphans
  orphans-OnlyChanges [] changed errors a o = o
  orphans-OnlyChanges ((name, backends) ∷ m) changed errors a o =
      orphans-OnlyChanges m _ _ _ (go (name == [] || is_some (GoMap.lookup name desired)) refl)
    where
      go :
          (b : Bool)
          → (name == [] || is_some (GoMap.lookup name desired)) ≡ b
          → OnlyChanges P
              (if b
                then (changed, errors, a)
                else remove_orphan env url name backends changed errors a).2
      go true e = o
      go false e =
          orphan-OnlyChanges name backends changed errors a
            (q name (λ n. ground (arith, e, (str_beq_iff name []).1 n), ground (arith, e))) o

  finish-OnlyChanges :
      (r : Bool × List NginxError × Adapter)
      → OnlyChanges P r.2
      → OnlyChanges P (finish_prune url r).1
  unfolding finish_prune invalidate_cache
  finish-OnlyChanges (true, errors, a) o = o
  finish-OnlyChanges (false, errors, a) o = o

  state-OnlyChanges :
      (errors : List NginxError) (r : Answer (GoMap (List Backend)) × Adapter)
      → OnlyChanges P r.1
      → OnlyChanges P (prune_state env url desired errors r).1
  unfolding prune_state
  state-OnlyChanges errors (failure e, a) o = o
  state-OnlyChanges errors (answer all, a) o =
      finish-OnlyChanges
        (remove_orphans env url desired (Sort.sort str_order (λ e. e.0) all) false errors a)
        (orphans-OnlyChanges (Sort.sort str_order (λ e. e.0) all) false errors a o)

  acquired-OnlyChanges :
      (errors : List NginxError) (r : Answer (Unit {0})) (a : Adapter)
      → OnlyChanges P a
      → OnlyChanges P (prune_acquired env url desired errors r a).1
  unfolding prune_acquired
  acquired-OnlyChanges errors (failure e) a o = o
  acquired-OnlyChanges errors (answer u) a o =
      state-OnlyChanges errors (refresh_cache env url a) (refresh-OnlyChanges P env url a o)

prune-OnlyChanges :
    (P : Str → Type 0) (env : NginxEnv) (urls : List Str) (desired : GoMap Upstream)
    (q : (n : Str) → IsOrphan desired n → P n) (errors : List NginxError) (a : Adapter)
    → OnlyChanges P a
    → OnlyChanges P (prune_clients env urls desired errors a).1
unfolding prune_clients
prune-OnlyChanges P env [] desired q errors a o = o
prune-OnlyChanges P env (url ∷ urls) desired q errors a o =
    prune-OnlyChanges P env urls desired q _ _
      (acquired-OnlyChanges P env url desired q errors (env.acquire url a.log) a o)

-- Whatever the servers answer, the requests of `SyncAllUpstreams` that add or remove servers concern
-- only upstreams that satisfy `P`, if `P` holds of the desired upstreams that are not preserved and,
-- where `prune_orphans` is set, of the names that are neither empty nor desired.
pub sync_all_upstreams-OnlyChanges :
    (P : Str → Type 0) (env : NginxEnv) (desired : GoMap Upstream) (a : Adapter)
    → Covers P desired
    → (env.prune_orphans ≡ true → (n : Str) → IsOrphan desired n → P n)
    → OnlyChanges P a
    → OnlyChanges P (sync_all_upstreams env desired a).1
unfolding sync_all_upstreams
sync_all_upstreams-OnlyChanges P env desired a h q o = go env.prune_orphans refl
  where
    go :
        (b : Bool)
        → env.prune_orphans ≡ b
        → OnlyChanges P
            (if not b
              then sync_desired env desired [] a
              else prune_clients env env.clients desired
                  (sync_desired env desired [] a).0
                  (sync_desired env desired [] a).1).1
    go true e =
        prune-OnlyChanges P env env.clients desired (q e) _ _
          (desired-OnlyChanges P env desired [] a h o)
    go false e = desired-OnlyChanges P env desired [] a h o
