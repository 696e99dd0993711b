-- ===== src/Nginx/Sync/Clean.antt =====
-- `SyncUpstream` of internal/adapters/loadbalancer/nginx/nginx.go only appends to its errors.
use mlb_controller.Base.{◌≡◌, List, [], ◌∷◌, Str, str_eq}
use mlb_controller.Base.GoMap.{GoMap}
use mlb_controller.Domain.Model.{Backend}
use mlb_controller.Nginx.Plan.{current_backends, update_backends, remove_backends, in_order}
use mlb_controller.Nginx.Sync.{
  Adapter, NginxEnv, NginxError, Answer, answer, failure, refresh_cache, append_error, send_adds,
  send_removes, apply_plan, with_state, acquired, each_client,
}
use mlb_controller.Nginx.Sync.Reaching.{never_empty}

append_error-clean :
    (f : NginxError → NginxError) (r : Answer Str) (errors : List NginxError)
    → append_error f r errors ≡ []
    → errors ≡ []
append_error-clean f (answer body) errors h = h
append_error-clean f (failure e) errors h = absurd (never_empty errors (f e) h)

send_adds-clean :
    (env : NginxEnv) (url name : Str) (m : GoMap Backend) (errors : List NginxError) (a : Adapter)
    → (send_adds env url name m errors a).0 ≡ []
    → errors ≡ []
unfolding send_adds
send_adds-clean env url name [] errors a h = h
send_adds-clean env url name ((key, b) ∷ m) errors a h =
    append_error-clean _ _ errors (send_adds-clean env url name m _ _ h)

send_removes-clean :
    (env : NginxEnv) (url name : Str) (m : GoMap Backend) (errors : List NginxError) (a : Adapter)
    → (send_removes env url name m errors a).0 ≡ []
    → errors ≡ []
unfolding send_removes
send_removes-clean env url name [] errors a h = h
send_removes-clean env url name ((key, b) ∷ m) errors a h =
    append_error-clean _ _ errors (send_removes-clean env url name m _ _ h)

with_state-clean :
    (env : NginxEnv) (url name : Str) (desired : GoMap Backend) (errors : List NginxError)
    (r : Answer (GoMap (List Backend)) × Adapter)
    → (with_state env url name desired errors r).0 ≡ []
    → errors ≡ []
unfolding with_state apply_plan
with_state-clean env url name desired errors (failure e, a) h = absurd (never_empty errors e h)
with_state-clean env url name desired errors (answer all, a) h =
    let updates = in_order (update_backends (current_backends name all) desired) in
    let removes = in_order (remove_backends desired (current_backends name all) []) in
    send_adds-clean env url name updates errors a
      (send_removes-clean env url name removes _ (send_adds env url name updates errors a).1 h)

acquired-clean :
    (env : NginxEnv) (url name : Str) (desired : GoMap Backend) (errors : List NginxError)
    (o : Answer (Unit {0})) (a : Adapter)
    → (acquired env url name desired errors o a).0 ≡ []
    → errors ≡ []
unfolding acquired
acquired-clean env url name desired errors (failure e) a h = absurd (never_empty errors _ h)
acquired-clean env url name desired errors (answer u) a h =
    with_state-clean env url name desired errors (refresh_cache env url a) h

-- No error at the end means that there was none before.
pub each_client-clean :
    (env : NginxEnv) (urls : List Str) (name : Str) (desired : GoMap Backend)
    (errors : List NginxError) (a : Adapter)
    → (each_client env urls name desired errors a).0 ≡ []
    → errors ≡ []
unfolding each_client
each_client-clean env [] name desired errors a h = h
each_client-clean env (url ∷ urls) name desired errors a h =
    acquired-clean env url name desired errors (env.acquire url a.log) a
      (each_client-clean env urls name desired _ _ h)
