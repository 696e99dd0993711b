-- ===== src/Application/Logging.antt =====
-- The loggers: `parseLevel` and `New` of internal/adapters/logging/zap.go, and the choice of
-- `NewContainer` in internal/di/wire.go.
use mlb_controller.Base.{
  true, not, ◌≡◌, refl, [], ◌∷◌, none, Str, codes, ◌==◌, str_eq, if◌then◌else◌, any, Bool-cases,
  inl, inr, arith,
}
use mlb_controller.Base.Fallible.{Fallible, success, failure, ◌>>=◌}
use mlb_controller.Domain.Config.{LogConfig}
use mlb_controller.Validator.Settings.{to_lower, validate_log}

pub data Level : Type 0 where
  debug_level info_level warn_level error_level fatal_level : Level

pub data Encoder : Type 0 where
  console_encoder json_encoder : Encoder

unfoldable pub level_of : Str → Str → Fallible Str Level
level_of level word =
    if word == codes "debug"
    then success debug_level
    else if word == codes "info"
    then success info_level
    else if word == codes "warn"
    then success warn_level
    else if word == codes "error"
    then success error_level
    else if word == codes "fatal"
    then success fatal_level
    else failure level

-- The error has the level as it was written.
unfoldable pub parse_level : Str → Fallible Str Level
unfolding level_of to_lower
parse_level level = level_of level (to_lower level)

-- A logger writes what has at least its level, or discards everything.
pub data Logger : Type 0 where
  zap_logger : Level → Encoder → Logger
  nop_logger : Logger

unfoldable pub encoder_of : Str → Encoder
unfolding to_lower
encoder_of format = if to_lower format == codes "console" then console_encoder else json_encoder

unfoldable pub new_logger : Str → Str → Fallible Str Logger
unfolding parse_level encoder_of
new_logger level format = do
  parsed ← parse_level level
  success (zap_logger parsed (encoder_of format))

or_bootstrap : Logger → Fallible Str Logger → Logger
or_bootstrap bootstrap (success logger) = logger
or_bootstrap bootstrap (failure e) = bootstrap

-- The production logger, in place of which the bootstrap logger stands where it cannot be made.
unfoldable pub production_logger : Logger → LogConfig → Logger
unfolding new_logger or_bootstrap
production_logger bootstrap log =
    if not log.enabled then nop_logger else or_bootstrap bootstrap (new_logger log.level log.format)

level_of-accepted :
    (level word : Str)
    → any
        (λ w. word == w)
        (codes "debug" ∷ codes "info" ∷ codes "warn" ∷ codes "error" ∷ codes "fatal" ∷ [])
      ≡ true
    → (l : Level) × (level_of level word ≡ success l)
unfolding level_of
level_of-accepted level word h = elim (Bool-cases (word == codes "debug")) [
  | inl t ↦ (debug_level, rw t refl)
  | inr f ↦ elim (Bool-cases (word == codes "info")) [
    | inl t ↦ (info_level, rw (f, t) refl)
    | inr g ↦ elim (Bool-cases (word == codes "warn")) [
      | inl t ↦ (warn_level, rw (f, g, t) refl)
      | inr k ↦ elim (Bool-cases (word == codes "error")) [
        | inl t ↦ (error_level, rw (f, g, k, t) refl)
        | inr e ↦ elim (Bool-cases (word == codes "fatal")) [
          | inl t ↦ (fatal_level, rw (f, g, k, e, t) refl)
          | inr n ↦ absurd (ground (arith, h, f, g, k, e, n))
        ]
      ]
    ]
  ]
]

-- With settings that the validator accepts, the logger is the one that they ask for.
pub accepted_logger :
    (bootstrap : Logger) (log : LogConfig)
    → validate_log log ≡ none
    → log.enabled ≡ true
    → (l : Level) × (parse_level log.level ≡ success l)
      × (production_logger bootstrap log ≡ zap_logger l (encoder_of log.format))
unfolding validate_log parse_level production_logger new_logger or_bootstrap
accepted_logger bootstrap log h on =
    let (l, e) = level_of-accepted log.level (to_lower log.level) (ground (arith, h, on)) in
    (l, e, rw on (rw e refl))
