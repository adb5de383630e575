-- ===== src/Command.antt =====
-- pkg/paperminercmd/main.go: the command, from the start of the process to its end. Functions that
-- are deferred run when `Main` returns, and not when it exits.
pub mod Laws
use Prim.Native.String.{◌++◌ as ◌<>◌}
use paperminer.Base.{ℕ, ℤ, pos, String, List, map}
use paperminer.Errors.{Err, error_text}
use paperminer.Io.{Io, Result, ok, err}
use paperminer.Core.{Startup, run}
use paperminer.Core.Setup.{Parts, Env, CreateFunc, NewWorkflow, Program, new_program}
use paperminer.Resolver.Providers.{ObjectResolvers}
use paperminer.Logging.{Zap, LoggingSetup, new_logging_setup, set_level, replace_globals}

-- `zap.InfoLevel`.
abbrev pub info_level : ℤ
info_level = pos 0

-- `kingpin.Parse` returns with the level that a flag or an environment variable has set, or ends the
-- process, as for `--help` or an unknown flag.
pub data Parsed : Type 0 where
  level_is : ℤ → Parsed
  terminated : ℕ → Parsed

-- `Main` returns, or it ends the process with a status.
pub data Exit : Type 0 where
  returned : Exit
  exited : ℕ → Exit

-- What the command stands on: the process and its libraries, what `NewProgram` is given besides the
-- logger, the functions that create workflows in the order in which Go visits their map, and how
-- the program that has them validates and starts. `fatal_log` is `log.Fatalf` up to the exit, `print`
-- writes a line to standard error.
pub record Process (W Logger Plugins Metrics Router Client Store : Type 0) : Type 0 where
  pub zap : Zap W Logger
  pub seed : W → W
  pub fatal_log : String → W → W
  pub notify_context : W → W
  pub stop : W → W
  pub print : String → W → W
  pub parse : ℤ → W → Parsed × W
  pub parts : Logger → Parts W Plugins Metrics Router Logger
  pub visited :
      List (
        String
        × CreateFunc W (Env W Store Client (ObjectResolvers W) Plugins Metrics Router Logger))
  pub validate :
      NewWorkflow (Env W Store Client (ObjectResolvers W) Plugins Metrics Router Logger)
      → Io W (Unit {0})
  pub startup :
      Program Plugins Metrics Router Logger
        (NewWorkflow (Env W Store Client (ObjectResolvers W) Plugins Metrics Router Logger))
      → Startup W Client Store

-- The program of a process.
abbrev pub ProgramOf :
    {W Logger Plugins Metrics Router Client Store : Type 0}
    → Process W Logger Plugins Metrics Router Client Store
    → Type 0
ProgramOf {W} {Logger} {Plugins} {Metrics} {Router} {Client} {Store} c =
    Program Plugins Metrics Router Logger
      (NewWorkflow (Env W Store Client (ObjectResolvers W) Plugins Metrics Router Logger))

module _ {W Logger Plugins Metrics Router Client Store : Type 0}
    (c : Process W Logger Plugins Metrics Router Client Store) where
  unfoldable pub make_program : Logger → Io W (ProgramOf c)
  unfolding new_program
  make_program logger = new_program (c.parts logger) c.visited

  unfoldable pub run_program : ProgramOf c → Io W (Unit {0})
  run_program p = run (c.startup p) (map c.validate p.workflows)

  -- The deferred functions: the signals are let go first.
  unfoldable pub finish : (W → W) → W → W
  finish restore s = restore (c.stop s)

  end_of_run : (W → W) → Result (Unit {0}) → W → Exit × W
  unfolding finish
  end_of_run restore (ok u) s = (returned, finish restore s)
  end_of_run restore (err e) s = (exited 1, c.print ("Fatal error: " <> error_text e) s)

  after_parse : LoggingSetup Logger → (W → W) → ProgramOf c → Parsed → W → Exit × W
  unfolding end_of_run run_program
  after_parse ls restore p (level_is level) s =
      let (r, s') = run_program p (set_level c.zap ls level s) in end_of_run restore r s'
  after_parse ls restore p (terminated status) s = (exited status, s)

  after_program : LoggingSetup Logger → (W → W) → Result (ProgramOf c) → W → Exit × W
  unfolding after_parse
  after_program ls restore (err e) s = (exited 1, c.print ("Setup error: " <> error_text e) s)
  after_program ls restore (ok p) s =
      let (parsed, s') = c.parse info_level s in after_parse ls restore p parsed s'

  after_logging : Result (LoggingSetup Logger) → W → Exit × W
  unfolding after_program make_program
  after_logging (err e) s =
      (exited 1, c.fatal_log ("Initializing logger failed: " <> error_text e) s)
  after_logging (ok ls) s =
      let (restore, s1) = replace_globals c.zap ls s in
      let (r, s2) = make_program ls.logger (c.notify_context s1) in after_program ls restore r s2

  unfoldable pub main : W → Exit × W
  unfolding after_logging new_logging_setup
  main s = let (r, s') = new_logging_setup c.zap (c.seed s) in after_logging r s'
