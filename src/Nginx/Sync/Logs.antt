-- ===== src/Nginx/Sync/Logs.antt =====
-- The requests of one client in `SyncUpstream` of internal/adapters/loadbalancer/nginx/nginx.go.
use mlb_controller.Base.{
  Bool, true, false, ◌&&◌, ◌≡◌, refl, sym, ap, ◌∙◌, List, [], ◌∷◌, ◌++◌, Str, str_eq, if◌then◌else◌,
  is_empty, append_nil, append_assoc,
}
use mlb_controller.Base.GoMap.{GoMap}
use mlb_controller.Domain.Model.{Backend}
use mlb_controller.Nginx.Plan.{in_order}
use mlb_controller.Nginx.Sync.{
  Adapter, NginxEnv, NginxError, Log, send, invalidate_cache, send_adds, send_removes, apply_plan,
}
use mlb_controller.Nginx.Sync.Served.{adding, removing}

send_adds-log :
    (env : NginxEnv) (url name : Str) (m : GoMap Backend) (errors : List NginxError) (a : Adapter)
    → (send_adds env url name m errors a).1.log ≡ a.log ++ adding url name m
unfolding send_adds send
send_adds-log env url name [] errors a = sym (append_nil a.log)
send_adds-log env url name ((key, b) ∷ m) errors a =
    send_adds-log env url name m _ _ ∙ append_assoc a.log (_ ∷ []) (adding url name m)

send_removes-log :
    (env : NginxEnv) (url name : Str) (m : GoMap Backend) (errors : List NginxError) (a : Adapter)
    → (send_removes env url name m errors a).1.log ≡ a.log ++ removing url name m
unfolding send_removes send
send_removes-log env url name [] errors a = sym (append_nil a.log)
send_removes-log env url name ((key, b) ∷ m) errors a =
    send_removes-log env url name m _ _ ∙ append_assoc a.log (_ ∷ []) (removing url name m)

-- The requests that a plan sends.
abbrev pub planned : Str → Str → GoMap Backend → GoMap Backend → Log
planned url name updates removes =
    adding url name (in_order updates) ++ removing url name (in_order removes)

kept_log :
    (b : Bool) (url : Str) (a : Adapter) → (if b then a else invalidate_cache url a).log ≡ a.log
unfolding invalidate_cache
kept_log true url a = refl
kept_log false url a = refl

pub apply_plan-log :
    (env : NginxEnv) (url name : Str) (updates removes : GoMap Backend) (errors : List NginxError)
    (a : Adapter)
    → (apply_plan env url name updates removes errors a).1.log
      ≡ a.log ++ planned url name updates removes
unfolding apply_plan
apply_plan-log env url name updates removes errors a =
    kept_log (is_empty updates && is_empty removes) url _
    ∙ send_removes-log env url name (in_order removes) _ _
    ∙ ap (λ log. log ++ removing url name (in_order removes))
        (send_adds-log env url name (in_order updates) errors a)
    ∙ append_assoc a.log (adding url name (in_order updates)) (removing url name (in_order removes))
