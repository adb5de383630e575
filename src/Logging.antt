-- ===== src/Logging.antt =====
-- internal/core/logging.go: the logger of the program, and how it takes the place of the loggers of
-- the process. go.uber.org/zap is a parameter.
pub mod Laws
use Prim.Native.String.{◌++◌ as ◌<>◌}
use paperminer.Base.{ℤ, String, Bool, true, Option, none}
use paperminer.Errors.{plain, error_text}
use paperminer.Io.{Io, Result, ok, err, pure, ◌>>=◌, or_wrap}

pub data TimeEncoder : Type 0 where
  epoch_time iso8601_time : TimeEncoder

pub data DurationEncoder : Type 0 where
  seconds_duration string_duration : DurationEncoder

-- `zap.Config`, as far as the program changes it. Sampling is a number of entries for each second
-- and what follows them; a missing encoder stands for the default one.
pub record LoggerConfig : Type 0 where
  pub sampling : Option (ℤ × ℤ)
  pub disable_caller : Bool
  pub disable_stacktrace : Bool
  pub encode_time : TimeEncoder
  pub encode_duration : DurationEncoder
  pub encode_name : String → String
  pub new_reflected_encoder : Option String
  pub encoding : String

-- The calls of the library. `replace_globals` and `redirect_std_log` return, beside the state, a
-- function that restores what was there. The level of a logger is kept by the process, since it is
-- shared with the configuration that the logger is built from.
pub record Zap (W Logger : Type 0) : Type 0 where
  pub new_production_config : LoggerConfig
  pub build : LoggerConfig → Io W Logger
  pub set_level : Logger → ℤ → W → W
  pub replace_globals : Logger → W → (W → W) × W
  pub redirect_std_log : Logger → W → (W → W) × W
  pub sync : Logger → W → W

in_brackets : String → String
in_brackets logger_name = "[" <> logger_name <> "]"

pub record LoggingSetup (Logger : Type 0) : Type 0 where
  pub logger : Logger

module _ {W Logger : Type 0} (zap : Zap W Logger) where
  unfoldable pub build_logger_config : LoggerConfig
  unfolding in_brackets
  build_logger_config = record zap.new_production_config {
    sampling = none;
    disable_caller = true;
    disable_stacktrace = true;
    encode_time = iso8601_time;
    encode_duration = string_duration;
    encode_name = in_brackets;
    new_reflected_encoder = none;
    encoding = "console";
  }

  -- The error is formatted with `%v`: only its text is left.
  unfoldable pub new_logging_setup : Io W (LoggingSetup Logger)
  unfolding build_logger_config
  new_logging_setup = do
    logger ←
        or_wrap (λ e. plain ("building logger: " <> error_text e)) (zap.build build_logger_config)
    pure (record { logger = logger })

  unfoldable pub set_level : LoggingSetup Logger → ℤ → W → W
  set_level s level = zap.set_level s.logger level

  -- The function that restores the loggers, beside the state.
  unfoldable pub replace_globals : LoggingSetup Logger → W → (W → W) × W
  replace_globals s w =
      let (restore_globals, w1) = zap.replace_globals s.logger w in
      let (restore_std_log, w2) = zap.redirect_std_log s.logger w1 in
      (λ t. zap.sync s.logger (restore_globals (restore_std_log t)), w2)
