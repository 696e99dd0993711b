-- ===== src/Application/Loader/Tickers.antt =====
-- The tickers of a controller whose configuration the loader has read.
use mlb_controller.Base.{
  ◌≡◌, refl, sym, ap, ◌∙◌, false, none, ℤ, pos, negsuc, suc, zero, ltb_ℤ, All, arith,
}
use mlb_controller.Base.Fallible.{success}
use mlb_controller.Net.Tls.{Tls}
use mlb_controller.Domain.Config.{Config}
use mlb_controller.Domain.Defaults.{
  or_default, global_defaults, apply_default_values, global_upstream_sync_period,
}
use mlb_controller.Validator.Settings.{validate_global_config}
use mlb_controller.Validator.Composite.Laws.{accepted_settings}
use mlb_controller.Controller.Env.{Env}
use mlb_controller.Controller.Tickers.{IsPositive, ticker_periods, ticker_periods-IsPositive}
use mlb_controller.Application.Certificates.{Files, load}
use mlb_controller.Application.Loader.{Sources, load_config}
use mlb_controller.Application.Loader.Laws.{load_config_sound}

defaulted-IsPositive :
    (period : ℤ)
    → or_default period global_upstream_sync_period ≡ period
    → ltb_ℤ period (pos 0) ≡ false
    → IsPositive period
unfolding or_default
defaulted-IsPositive (pos zero) d n = cc
defaulted-IsPositive (pos (suc k)) d n = ground arith
defaulted-IsPositive (negsuc k) d n = absurd (ground (arith, n))

default_period :
    (cfg : Config)
    → (apply_default_values cfg).global_upstream_sync_period
      ≡ or_default cfg.global_upstream_sync_period global_upstream_sync_period
unfolding apply_default_values global_defaults
default_period cfg = refl

not_negative :
    (cfg : Config)
    → validate_global_config cfg ≡ none
    → ltb_ℤ cfg.global_upstream_sync_period (pos 0) ≡ false
unfolding validate_global_config
not_negative cfg h = ground (arith, h)

-- Let the certificates come from `FileLoader`. With a configuration that the loader returns, every
-- ticker of the periodic reconciliation has a positive period, also where no load balancer is
-- configured or one has a period that is not positive, so that `time.NewTicker` does not panic.
pub load_config-ticker_periods :
    {Raw : Type 0} (src : Sources Raw) (tls : Tls) (files : Files)
    → src.load_certificates ≡ load tls files
    → (env : Env) → load_config src ≡ success env.config
    → All IsPositive (ticker_periods env)
load_config-ticker_periods src tls files from_files env read =
    let (filled, valid, typed) = load_config_sound src tls files from_files env.config read in
    ticker_periods-IsPositive env (
      defaulted-IsPositive env.config.global_upstream_sync_period
        (sym (default_period env.config) ∙ ap (λ c. c.global_upstream_sync_period) filled)
        (not_negative env.config (accepted_settings env.config valid)))
