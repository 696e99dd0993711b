-- ===== src/Nginx/Sync/Elsewhere.antt =====
-- `SyncUpstream` of internal/adapters/loadbalancer/nginx/nginx.go at one client, seen from another.
use mlb_controller.Base.{
  ◌≡◌, refl, sym, ap, ◌∙◌, false, List, [], ◌∷◌, ◌++◌, Str, ◌==◌, str_eq, if◌then◌else◌, All,
  append_nil, append_assoc,
}
use mlb_controller.Base.GoMap.{GoMap}
use mlb_controller.Domain.Model.{Backend}
use mlb_controller.Nginx.Plan.{current_backends, update_backends, remove_backends, in_order}
use mlb_controller.Nginx.Sync.{
  add_server, remove_server, Adapter, NginxEnv, NginxError, Answer, answer, failure, Log,
  refresh_cache, with_state, acquired, each_client,
}
use mlb_controller.Nginx.Sync.Served.{
  Served, serve, serve_all, serve_all-append, adding, removing, addr_of,
}
use mlb_controller.Nginx.Sync.Logs.{apply_plan-log, planned}
use mlb_controller.Nginx.Sync.Reaching.{refresh-log}

-- A log that changes no server of `url`.
abbrev IsElsewhere : Str → Str → Log → Type 0
IsElsewhere url name sent = (st : Served) → serve_all url name sent st ≡ st

adding-IsElsewhere :
    (url client name up : Str) (m : GoMap Backend)
    → (client == url) ≡ false
    → IsElsewhere url name (adding client up m)
adding-IsElsewhere url client name up [] f st = refl
adding-IsElsewhere url client name up ((key, b) ∷ m) f st =
    ap
      (λ c.
        serve_all url name (adding client up m)
          (if c then serve name (add_server up (addr_of b) b.weight) st else st))
      f
    ∙ adding-IsElsewhere url client name up m f st

removing-IsElsewhere :
    (url client name up : Str) (m : GoMap Backend)
    → (client == url) ≡ false
    → IsElsewhere url name (removing client up m)
removing-IsElsewhere url client name up [] f st = refl
removing-IsElsewhere url client name up ((key, b) ∷ m) f st =
    ap
      (λ c.
        serve_all url name (removing client up m)
          (if c then serve name (remove_server up (addr_of b)) st else st))
      f
    ∙ removing-IsElsewhere url client name up m f st

append-IsElsewhere :
    (url name : Str) (sent more : Log)
    → IsElsewhere url name sent
    → IsElsewhere url name more
    → IsElsewhere url name (sent ++ more)
append-IsElsewhere url name sent more h k st =
    serve_all-append url name sent more st ∙ ap (serve_all url name more) (h st) ∙ k st

abbrev SendsElsewhere : Str → Str → Adapter → Adapter → Type 0
SendsElsewhere url name a b = (sent : Log) × (b.log ≡ a.log ++ sent) × IsElsewhere url name sent

SendsElsewhere-trans :
    (url name : Str) (a b c : Adapter)
    → SendsElsewhere url name a b
    → SendsElsewhere url name b c
    → SendsElsewhere url name a c
SendsElsewhere-trans url name a b c (sent, e, h) (more, f, k) = (
  sent ++ more,
  f ∙ ap (λ log. log ++ more) e ∙ append_assoc a.log sent more,
  append-IsElsewhere url name sent more h k,
)

SendsElsewhere-refl : (url name : Str) (a : Adapter) → SendsElsewhere url name a a
SendsElsewhere-refl url name a = ([], sym (append_nil a.log), λ st. refl)

with_state-SendsElsewhere :
    (env : NginxEnv) (url client name : Str) (desired : GoMap Backend) (errors : List NginxError)
    (r : Answer (GoMap (List Backend)) × Adapter)
    → (client == url) ≡ false
    → SendsElsewhere url name r.1 (with_state env client name desired errors r).1
unfolding with_state
with_state-SendsElsewhere env url client name desired errors (failure e, a) f =
    SendsElsewhere-refl url name a
with_state-SendsElsewhere env url client name desired errors (answer all, a) f =
    let updates = update_backends (current_backends name all) desired in
    let removes = remove_backends desired (current_backends name all) [] in
    (
      planned client name updates removes,
      apply_plan-log env client name updates removes errors a,
      append-IsElsewhere url name (adding client name (in_order updates))
          (removing client name (in_order removes))
          (adding-IsElsewhere url client name name (in_order updates) f)
          (removing-IsElsewhere url client name name (in_order removes) f),
    )

acquired-SendsElsewhere :
    (env : NginxEnv) (url client name : Str) (desired : GoMap Backend) (errors : List NginxError)
    (o : Answer (Unit {0})) (a : Adapter)
    → (client == url) ≡ false
    → SendsElsewhere url name a (acquired env client name desired errors o a).1
unfolding acquired
acquired-SendsElsewhere env url client name desired errors (failure e) a f =
    SendsElsewhere-refl url name a
acquired-SendsElsewhere env url client name desired errors (answer u) a f =
    SendsElsewhere-trans url name a (refresh_cache env client a).1
      (with_state env client name desired errors (refresh_cache env client a)).1
      (refresh-log env client url name a)
      (with_state-SendsElsewhere env url client name desired errors (refresh_cache env client a) f)

pub each_client-SendsElsewhere :
    (env : NginxEnv) (url : Str) (urls : List Str) (name : Str) (desired : GoMap Backend)
    (errors : List NginxError) (a : Adapter)
    → All (λ client. (client == url) ≡ false) urls
    → SendsElsewhere url name a (each_client env urls name desired errors a).1
unfolding each_client
each_client-SendsElsewhere env url [] name desired errors a f = SendsElsewhere-refl url name a
each_client-SendsElsewhere env url (client ∷ urls) name desired errors a f =
    SendsElsewhere-trans url name a
      (acquired env client name desired errors (env.acquire client a.log) a).1
      (each_client env (client ∷ urls) name desired errors a).1
      (acquired-SendsElsewhere env url client name desired errors (env.acquire client a.log) a f.0)
      (each_client-SendsElsewhere env url urls name desired _ _ f.1)
