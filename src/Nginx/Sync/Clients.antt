-- ===== src/Nginx/Sync/Clients.antt =====
-- `SyncUpstream` with many clients: each is served in its turn, and the others leave it alone.
use mlb_controller.Base.{
  ◌≡◌, refl, sym, ap, ◌∙◌, false, List, [], ◌∷◌, ◌++◌, Str, ◌==◌, str_eq, All, append_assoc,
}
use mlb_controller.Base.GoMap.{GoMap}
use mlb_controller.Domain.Model.{Backend, Upstream}
use mlb_controller.Nginx.Plan.{aggregate}
use mlb_controller.Nginx.Sync.{
  Adapter, NginxEnv, NginxError, Log, acquired, each_client, sync_upstream,
}
use mlb_controller.Nginx.Sync.Served.{Served, serve_all, serve_all-append, addr_of}
use mlb_controller.Nginx.Sync.Reaching.{IsListed, Reaches, client-Reaches}
use mlb_controller.Nginx.Sync.Clean.{each_client-clean}
use mlb_controller.Nginx.Sync.Elsewhere.{each_client-SendsElsewhere}

each_client-append :
    (env : NginxEnv) (before after : List Str) (name : Str) (desired : GoMap Backend)
    (errors : List NginxError) (a : Adapter)
    → each_client env (before ++ after) name desired errors a
      ≡ each_client env after name desired
          (each_client env before name desired errors a).0
          (each_client env before name desired errors a).1
unfolding each_client
each_client-append env [] after name desired errors a = refl
each_client-append env (url ∷ before) after name desired errors a =
    each_client-append env before after name desired _ _

-- The adapter when the turn comes to the client after `before`.
abbrev pub at_turn : NginxEnv → List Str → Upstream → Adapter → Adapter
at_turn env before up a = (each_client env before up.name (aggregate up.backends []) [] a).1

after-Reaches :
    (env : NginxEnv) (url : Str) (after : List Str) (up : Upstream) (errors : List NginxError)
    (a : Adapter) (start : Served)
    → All (λ client. (client == url) ≡ false) after
    → IsListed env url up.name a start
    → (each_client env (url ∷ after) up.name (aggregate up.backends []) errors a).0 ≡ []
    → (sent : Log) × ((each_client env
          (url ∷ after)
          up.name
          (aggregate up.backends [])
          errors
          a).1.log
        ≡ a.log ++ sent)
      × Reaches url up.name up.backends start sent
unfolding each_client
after-Reaches env url after up errors a start others listed h =
    let desired = aggregate up.backends [] in
    let served = acquired env url up.name desired errors (env.acquire url a.log) a in
    let (sent, logged, reached) =
      client-Reaches env url up.name up.backends errors a start (env.acquire url a.log) listed
        (each_client-clean env after up.name desired served.0 served.1 h) in
    let (more, logged_more, elsewhere) =
      each_client-SendsElsewhere env url after up.name desired served.0 served.1 others in
    (
      sent ++ more,
      logged_more ∙ ap (λ log. log ++ more) logged ∙ append_assoc a.log sent more,
      λ b.
          ap (λ f. f (addr_of b))
            (serve_all-append url up.name sent more start
              ∙ elsewhere (serve_all url up.name sent start))
          ∙ reached b,
    )

-- Take any client of the adapter that does not come again later in the list. Let the listing that
-- `refreshCache` returns in its turn, fetched or cached, be what its server serves for the upstream by
-- then. If `SyncUpstream` returns no error, then the requests that it sent from then on lead this server
-- to serve, at the address of each backend, exactly the weight that the controller wants for it: the
-- total over the backends with this address and port, each counting at least 1, and nothing where no
-- backend has them.
pub sync_upstream-Reaches :
    (env : NginxEnv) (before : List Str) (url : Str) (after : List Str) (up : Upstream)
    (a : Adapter) (start : Served)
    → env.clients ≡ before ++ url ∷ after
    → All (λ client. (client == url) ≡ false) after
    → IsListed env url up.name (at_turn env before up a) start
    → (sync_upstream env up a).0 ≡ []
    → (sent : Log) × ((sync_upstream env up a).1.log ≡ (at_turn env before up a).log ++ sent)
      × Reaches url up.name up.backends start sent
unfolding sync_upstream
sync_upstream-Reaches env before url after up a start split others listed h =
    let desired = aggregate up.backends [] in
    let same =
      ap (λ urls. each_client env urls up.name desired [] a) split
      ∙ each_client-append env before (url ∷ after) up.name desired [] a in
    let (sent, logged, reached) =
      after-Reaches env url after up (each_client env before up.name desired [] a).0
        (at_turn env before up a) start others listed (sym (ap (λ r. r.0) same) ∙ h) in
    (sent, ap (λ r. r.1.log) same ∙ logged, reached)
