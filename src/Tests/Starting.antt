-- ===== src/Tests/Starting.antt =====
-- The process from its start to its end, and tests of facters.
use mathlib.Core.List.{reverse}
use paperminer.Base.{ℕ, suc, ◌≡◌, refl, inr, false, ℤ, pos, none, some, List, [], ◌∷◌, ◌++◌, String}
use paperminer.Errors.{plain}
use paperminer.Io.{Result, ok, err}
use paperminer.Facter.{DocumentFacter}
use paperminer.Documents.{Dossier}
use paperminer.Flags.Registration.{Flag, all_flags}
use paperminer.Logging.{Zap, iso8601_time, epoch_time, seconds_duration}
use paperminer.Logging.Laws.{IsZap}
use paperminer.Command.{Process, level_is, main}
use paperminer.Command.Laws.{HasReturned, HasFailed, main-returned, main-exited}
use paperminer.Core.Setup.{Parts, workflow_create_funcs}
use paperminer.Core.Setup.Laws.{Created, new_program-Created}
use paperminer.Factertest.{Harness, assert, new_test_case}
use paperminer.Factertest.Laws.{HasPassed, assert-eq_ok}
use paperminer.Tests.World.{bill_facts}
use paperminer.Tests.Schedule.{startup_in}

-- Loggers are numbers; the standard logger is 0 when it writes to standard error, and one more than
-- the logger that it writes to otherwise.
pub record Machine : Type 0 where
  pub global : ℕ
  pub std : ℕ
  pub level : ℤ
  pub stderr : List String
  pub flags : List Flag

abbrev zap : Zap Machine ℕ
zap = record {
  new_production_config = record {
    sampling = some (pos 100, pos 100);
    disable_caller = false;
    disable_stacktrace = false;
    encode_time = epoch_time;
    encode_duration = seconds_duration;
    encode_name = λ name. name;
    new_reflected_encoder = none;
    encoding = "json";
  };
  build = λ config m. (ok 7, m);
  set_level = λ l level m. record m { level = level };
  replace_globals = λ l m. (λ t. record t { global = m.global }, record m { global = l });
  redirect_std_log = λ l m. (λ t. record t { std = 0 }, record m { std = suc l });
  sync = λ l m. m;
}

zap-IsZap : IsZap zap (λ m. m.global) (λ m. m.std) suc (λ n. 0)
zap-IsZap = record {
  replaces = λ l s. refl;
  replacing_keeps_std = λ l s. refl;
  restores = λ l s t. refl;
  restoring_keeps_std = λ l s t. refl;
  redirects = λ l s. refl;
  redirecting_keeps_global = λ l s. refl;
  resets = λ l s t. refl;
  sync_keeps_global = λ l s. refl;
  sync_keeps_std = λ l s. refl;
}

abbrev parts : ℕ → Parts Machine ℕ ℕ ℕ ℕ
parts logger = record {
  args0 = "/usr/bin/paperminer";
  add_flags = λ fs m. record m { flags = m.flags ++ fs };
  logger = logger;
  with_workflow = λ l name. l;
  plugins = 0;
  metrics = 0;
  router = 0;
  client_flags =
      record { name = "paperless_url"; default = none }
      ∷ record { name = "paperless_auth_token"; default = none }
      ∷ [];
}

abbrev process : Result (Unit {0}) → Process Machine ℕ ℕ ℕ ℕ String String
process verdict = record {
  zap = zap;
  seed = λ m. m;
  fatal_log = λ text m. record m { stderr = text ∷ m.stderr };
  notify_context = λ m. m;
  stop = λ m. m;
  print = λ text m. record m { stderr = text ∷ m.stderr };
  parse = λ level m. (level_is (pos 1), m);
  parts = parts;
  visited = workflow_create_funcs;
  validate = λ wf m. (verdict, m);
  startup = λ p. startup_in Machine;
}

abbrev booted : Machine
booted = record { global = 0; std = 0; level = pos 0; stderr = []; flags = [] }

abbrev stopped : Machine
stopped = record booted { level = pos 1; flags = all_flags (parts 7).client_flags "paperminer" }

main-returned_example :
    (r : HasReturned (process (ok tt)) booted stopped) × (◌≡◌ {A = ℕ} 0 r.before.global)
    × (◌≡◌ {A = ℕ} 0 0)
unfolding main workflow_create_funcs paperminer.Core.Setup.new_cataloger
    paperminer.Core.Setup.new_store_pruner paperminer.Core.run paperminer.Core.validate_all
    paperminer.Core.open_default_store paperminer.Resolver.Providers.new_object_resolvers
    paperminer.Resolver.Permissions.resolve_owner
    paperminer.Resolver.Permissions.resolve_permissions
    paperminer.Resolver.Permissions.resolve_principals paperminer.Resolver.Permissions.resolve_ids
    paperminer.Logging.replace_globals paperminer.Logging.set_level all_flags paperminer.Paths.base
main-returned_example =
    main-returned (process (ok tt)) (λ m. m.global) (λ m. m.std) suc (λ n. 0) zap-IsZap booted
      stopped refl

abbrev complaint : Machine
complaint = record stopped { global = 7; std = 8; stderr = "Fatal error: no tags" ∷ [] }

main-exited_example : HasFailed (process (err (plain "no tags"))) booted 1 complaint
unfolding main workflow_create_funcs paperminer.Core.Setup.new_cataloger
    paperminer.Core.Setup.new_store_pruner paperminer.Core.run paperminer.Core.validate_all
    paperminer.Logging.set_level all_flags paperminer.Logging.replace_globals paperminer.Paths.base
main-exited_example = main-exited (process (err (plain "no tags"))) booted complaint 1 refl

new_program-Created_example :
    Created {Store = ℕ} {Client = ℕ} {Resolvers = ℕ}
      (parts 7)
      (λ m. m.flags)
      (reverse workflow_create_funcs)
      booted
new_program-Created_example =
    new_program-Created (parts 7) (λ m. m.flags) (λ fs m. refl) (reverse workflow_create_funcs)
      booted (inr refl) (refl, (refl, tt)) refl

abbrev harness : Harness ℕ
harness = record {
  run_subtest = λ name body. body;
  assert_golden = λ golden name facts n. (ok tt, suc n);
  marshal = λ facts. ok "{}";
  go_syntax = λ facts. "nil";
  log = λ text n. (ok tt, n);
}

abbrev library : Dossier ℕ String
library = record { new_document = λ path. path; validate = λ ctx doc n. (ok tt, n) }

abbrev facter : DocumentFacter ℕ String
facter = record { info_name = "bills"; document_facts = λ ctx doc n. (ok (some bill_facts), n) }

assert-eq_ok_example :
    HasPassed harness library facter "testdata/invoice.pdf" "invoice.want.json" 0 1
unfolding assert paperminer.Paths.has new_test_case
assert-eq_ok_example =
    assert-eq_ok harness library facter "testdata" "invoice" "pdf" 0 1 (λ name body. refl) refl refl
      refl refl
