-- ===== src/Application/Metrics.antt =====
-- `PrometheusAdapter` of internal/adapters/metrics/prometheus.go, and the parts of `App.Start` and
-- `App.Stop` of internal/application/app.go that serve it. The vectors of Prometheus are maps by the
-- label `upstream`.
pub mod Laws
use mlb_controller.Base.{
  ℕ, suc, ◌+◌, Bool, true, false, not, ◌&&◌, ◌||◌, List, [], ◌∷◌, ◌++◌, Option, none, some, Str,
  codes, ◌==◌, str_eq, if◌then◌else◌, map,
}
use mlb_controller.Base.GoMap
use mlb_controller.Base.GoMap.{GoMap}
use mlb_controller.Base.Text.{has_prefix, ends_with}
use mlb_controller.Domain.Config.{MetricsConfig}
use mlb_controller.Controller.Env.{
  Effect, queue_add, queue_forget, queue_add_rate_limited, update_backends_total,
  increment_sync_errors, observe_sync_duration, sync_upstreams_inc, sync_upstream,
  sync_all_upstreams,
}

pub record Prometheus : Type 0 where
  pub metrics_config : MetricsConfig
  -- What the checker answers, where there is one.
  pub ready_checker : Option Bool
  pub is_leader : Bool
  pub serving : Bool
  pub backends_total : GoMap ℕ
  pub sync_errors_total : GoMap ℕ
  -- How many durations were observed.
  pub sync_durations : GoMap ℕ
  -- The counter `mlb_sync_upstreams_total` of the controller.
  pub sync_upstreams_total : ℕ

unfoldable pub set_ready_checker : Bool → Prometheus → Prometheus
set_ready_checker answer p = record p { ready_checker = some answer }

unfoldable pub set_leader : Bool → Prometheus → Prometheus
set_leader leader p = record p { is_leader = leader }

-- The gauge `mlb_is_leader`; `elected` is what the election says.
unfoldable pub leader_gauge : Bool → Prometheus → ℕ
leader_gauge elected p = if p.is_leader then 1 else if elected then 1 else 0

abbrev pub count : Str → GoMap ℕ → ℕ
count name m = GoMap.index 0 name m

-- What the calls of the controller do.
unfoldable pub observe : Effect → Prometheus → Prometheus
observe (update_backends_total name n) p = record p {
  backends_total = GoMap.insert name n p.backends_total;
}
observe (increment_sync_errors name) p = record p {
  sync_errors_total = GoMap.insert name (suc (count name p.sync_errors_total)) p.sync_errors_total;
}
observe (observe_sync_duration name) p = record p {
  sync_durations = GoMap.insert name (suc (count name p.sync_durations)) p.sync_durations;
}
observe sync_upstreams_inc p = record p { sync_upstreams_total = suc p.sync_upstreams_total }
observe (queue_add key) p = p
observe (queue_forget key) p = p
observe (queue_add_rate_limited key) p = p
observe (sync_upstream lb up) p = p
observe (sync_all_upstreams lb ups) p = p

unfoldable pub observe_all : List Effect → Prometheus → Prometheus
unfolding observe
observe_all [] p = p
observe_all (e ∷ es) p = observe_all es (observe e p)

-- The path of the metrics: `/metrics` by default, and with a leading slash.
unfoldable pub metrics_uri : Prometheus → Str
unfolding has_prefix
metrics_uri p =
    let uri = if p.metrics_config.uri == [] then codes "/metrics" else p.metrics_config.uri in
    if has_prefix uri (codes "/") then uri else b'/' ∷ uri

pub data Handler : Type 0 where
  metrics_handler : Handler
  healthz_handler : Handler
  readyz_handler : Handler

-- The patterns that are registered, in order.
abbrev pub Mux : Type 0
Mux = List (Str × Handler)

-- `http.ServeMux`: whether it takes a pattern beside those that it has. Its `Handle` panics where it
-- does not, for a pattern that it cannot parse or that conflicts with another.
abbrev pub ServeMux : Type 0
ServeMux = Str → List Str → Bool

-- A panic is `none`.
unfoldable pub handle : ServeMux → Str → Handler → Mux → Option Mux
handle takes pattern h mux =
    if takes pattern (map (λ r. r.0) mux) then some (mux ++ (pattern, h) ∷ []) else none

abbrev pub and_handle : ServeMux → Option Mux → Str → Handler → Option Mux
and_handle takes none pattern h = none
and_handle takes (some mux) pattern h = handle takes pattern h mux

unfoldable pub handler : ServeMux → Prometheus → Option Mux
unfolding metrics_uri handle
handler takes p =
    and_handle takes
      (and_handle takes (handle takes (metrics_uri p) metrics_handler []) (codes "/healthz")
        healthz_handler)
      (codes "/readyz") readyz_handler

-- The handler whose pattern is the path.
unfoldable pub route : Str → Mux → Option Handler
route path [] = none
route path ((pattern, h) ∷ mux) = if pattern == path then some h else route path mux

abbrev pub is_ready : Option Bool → Bool
is_ready none = true
is_ready (some answer) = answer

-- The status of an answer of the handler.
unfoldable pub respond : Prometheus → Handler → ℕ
respond p metrics_handler = 200
respond p healthz_handler = 200
respond p readyz_handler = if is_ready p.ready_checker then 200 else 503

-- `Start`, which the process does not survive where `Handler` panics, and `Stop`.
unfoldable pub start : ServeMux → Prometheus → Option Prometheus
unfolding handler
start takes p = elim (handler takes p) [
  | none ↦ none
  | some mux ↦ some (record p { serving = true })
]

unfoldable pub stop : Prometheus → Prometheus
stop p = record p { serving = false }

-- `App.Start` up to the callbacks: the readiness checker, the leadership, and the server where it is
-- enabled. Whether informers have synchronised and whether the election leads are arguments.
unfoldable pub prepare : ServeMux → Bool → Bool → Prometheus → Option Prometheus
unfolding set_ready_checker set_leader start
prepare takes synced elected p =
    let q = set_leader elected (set_ready_checker synced p) in
    if p.metrics_config.enabled then start takes q else some q
