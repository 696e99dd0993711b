-- ===== src/Controller/Tickers.antt =====
-- The tickers that `runPeriodicSync` of internal/controller/controller.go starts.
use mlb_controller.Base.{
  true, List, [], ◌∷◌, Option, none, some, Str, ℤ, pos, map, ltb_ℤ, leb_ℤ, if◌then◌else◌, ◌≡◌, refl,
  All, Bool-cases, inl, inr, arith,
}
use mlb_controller.Base.GoMap
use mlb_controller.Base.GoMap.{GoMap}
use mlb_controller.Domain.Config.{LoadBalancerConfig, get_upstream_sync_period, seconds}
use mlb_controller.Controller.Env.{Env, LoadBalancerAdapter, get_load_balancer_config}

own_period : ℤ → Option LoadBalancerConfig → ℤ
own_period global none = global
own_period global (some lb) =
    if ltb_ℤ (pos 0) (get_upstream_sync_period lb) then get_upstream_sync_period lb else global

unfoldable pub positive_period : ℤ → ℤ
positive_period period = if leb_ℤ period (pos 0) then seconds 30 else period

-- The period for one load balancer.
unfoldable pub sync_period : Env → Str → ℤ
unfolding own_period positive_period
sync_period env lb =
    positive_period
      (own_period env.config.global_upstream_sync_period (get_load_balancer_config env lb))

-- Without load balancers there is one ticker, with the global period as it is.
unfoldable pub periods_for : Env → GoMap LoadBalancerAdapter → List ℤ
unfolding sync_period
periods_for env [] = env.config.global_upstream_sync_period ∷ []
periods_for env (lb ∷ lbs) = map (sync_period env) (GoMap.keys (lb ∷ lbs))

unfoldable pub ticker_periods : Env → List ℤ
unfolding periods_for
ticker_periods env = periods_for env env.load_balancers

-- `time.NewTicker` panics for any other period.
abbrev pub IsPositive : ℤ → Type 0
IsPositive period = ltb_ℤ (pos 0) period ≡ true

sync_period-IsPositive : (env : Env) (lb : Str) → IsPositive (sync_period env lb)
unfolding sync_period positive_period
sync_period-IsPositive env lb =
    go (own_period env.config.global_upstream_sync_period (get_load_balancer_config env lb))
  where
    go : (period : ℤ) → IsPositive (if leb_ℤ period (pos 0) then seconds 30 else period)
    go period = elim (Bool-cases (leb_ℤ period (pos 0))) [
      | inl t ↦ rw t refl
      | inr f ↦ rw f (ground (arith, f))
    ]

periods-IsPositive : (env : Env) (lbs : List Str) → All IsPositive (map (sync_period env) lbs)
periods-IsPositive env [] = tt
periods-IsPositive env (lb ∷ lbs) = (sync_period-IsPositive env lb, periods-IsPositive env lbs)

pub ticker_periods-IsPositive :
    (env : Env)
    → IsPositive env.config.global_upstream_sync_period
    → All IsPositive (ticker_periods env)
unfolding ticker_periods periods_for
ticker_periods-IsPositive env h = go env.load_balancers
  where
    go : (lbs : GoMap LoadBalancerAdapter) → All IsPositive (periods_for env lbs)
    go [] = (h, tt)
    go (lb ∷ lbs) = periods-IsPositive env (GoMap.keys (lb ∷ lbs))
