-- ===== src/Command/Laws.antt =====
-- How the command ends.
use Prim.Native.String.{◌++◌ as ◌<>◌}
use paperminer.Base.{ℕ, ℤ, ◌≡◌, refl, sym, ap, subst, ◌⊎◌, inl, inr, map}
use paperminer.Errors.{Err, error_text}
use paperminer.Io.{Result, ok, err}
use paperminer.Core.{early, validate_all}
use paperminer.Core.Laws.{Passes, Served, run-eq_ok}
use paperminer.Logging.{LoggingSetup, new_logging_setup, set_level, replace_globals}
use paperminer.Logging.Laws.{IsZap, replace_globals-restores}
use paperminer.Command.{
  Parsed, level_is, terminated, Exit, returned, exited, Process, info_level, make_program,
  run_program, ProgramOf, finish, end_of_run, after_parse, after_program, after_logging, main,
}

exit_of : {W : Type 0} {x y : Exit} {s t : W} → ◌≡◌ {A = Exit × W} (x, s) (y, t) → x ≡ y
exit_of {W = W} e = ap (λ (p : Exit × W). p.0) e

end_of : {W : Type 0} {x y : Exit} {s t : W} → ◌≡◌ {A = Exit × W} (x, s) (y, t) → s ≡ t
end_of {W = W} e = ap (λ (p : Exit × W). p.1) e

module _ {W Logger Plugins Metrics Router Client Store : Type 0}
    (c : Process W Logger Plugins Metrics Router Client Store) where
  -- A `Run` of the program that returned nil, from the level that was set to the deferred functions.
  abbrev pub HasRun : LoggingSetup Logger → ProgramOf c → (W → W) → ℤ → W → W → Type 0
  HasRun ls p restore level s s' =
      let validates = map c.validate p.workflows in
      let leveled = set_level c.zap ls level s in
      (u : W) × ((validate_all validates leveled ≡ (early, u))
        ⊎ ((t : W) × Passes validates leveled t × Served (c.startup p) t u))
      × (finish c restore u ≡ s')

  -- What the command did if it returned: s is the state that it began in, s' the one it has left.
  pub record HasReturned (s s' : W) : Type 0 where
    pub setup : LoggingSetup Logger
    pub program : ProgramOf c
    pub level : ℤ
    pub before : W
    pub after_setup : W
    pub parsed_at : W
    pub set_up : new_logging_setup c.zap (c.seed s) ≡ (ok setup, before)
    pub made :
        make_program c setup.logger (c.notify_context (replace_globals c.zap setup before).1)
        ≡ (ok program, after_setup)
    pub was_parsed : c.parse info_level after_setup ≡ (level_is level, parsed_at)
    pub ran : HasRun setup program (replace_globals c.zap setup before).0 level parsed_at s'

  run-returned :
      (restore : W → W) (v : Result (Unit {0}) × W) (s' : W)
      → end_of_run c restore v.0 v.1 ≡ (returned, s')
      → (u : W) × (v ≡ (ok tt, u)) × (finish c restore u ≡ s')
  unfolding end_of_run
  run-returned restore (ok tt, u) s' h = (u, refl, end_of h)
  run-returned restore (err e, u) s' h = absurd (cc (exit_of h))

  parse-returned :
      (ls : LoggingSetup Logger) (restore : W → W) (p : ProgramOf c) (q : Parsed) (s s' : W)
      → after_parse c ls restore p q s ≡ (returned, s')
      → (level : ℤ) × (q ≡ level_is level) × HasRun ls p restore level s s'
  unfolding after_parse run_program
  parse-returned ls restore p (level_is level) s s' h =
      let leveled = set_level c.zap ls level s in
      let (u, ran, done) = run-returned restore (run_program c p leveled) s' h in
      (level, refl, (u, run-eq_ok (c.startup p) (map c.validate p.workflows) leveled u ran, done))
  parse-returned ls restore p (terminated status) s s' h = absurd (cc (exit_of h))

  program-returned :
      (ls : LoggingSetup Logger) (restore : W → W) (v : Result (ProgramOf c) × W) (s' : W)
      → after_program c ls restore v.0 v.1 ≡ (returned, s')
      → (p : ProgramOf c) × (t : W) × (level : ℤ) × (u : W) × (v ≡ (ok p, t))
        × (c.parse info_level t ≡ (level_is level, u))
        × HasRun ls p restore level u s'
  unfolding after_program
  program-returned ls restore (ok p, t) s' h =
      let u = (c.parse info_level t).1 in
      let (level, parsed, ran) = parse-returned ls restore p (c.parse info_level t).0 u s' h in
      (p, t, level, u, refl, cc parsed, ran)
  program-returned ls restore (err e, t) s' h = absurd (cc (exit_of h))

  logging-returned :
      (s s' : W) (v : Result (LoggingSetup Logger) × W)
      → new_logging_setup c.zap (c.seed s) ≡ v
      → after_logging c v.0 v.1 ≡ (returned, s')
      → HasReturned s s'
  unfolding after_logging
  logging-returned s s' (ok ls, t) e h =
      let (restore, during) = replace_globals c.zap ls t in
      let (p, t2, level, t3, made, parsed, ran) =
        program-returned ls restore (make_program c ls.logger (c.notify_context during)) s' h in
      record {
        setup = ls;
        program = p;
        level = level;
        before = t;
        after_setup = t2;
        parsed_at = t3;
        set_up = e;
        made = made;
        was_parsed = parsed;
        ran = ran;
      }
  logging-returned s s' (err x, t) e h = absurd (cc (exit_of h))

module _ {W Logger Plugins Metrics Router Client Store Std : Type 0}
    (c : Process W Logger Plugins Metrics Router Client Store) (global : W → Logger) (std : W → Std)
    (redirected : Logger → Std) (reset : Std → Std)
    (laws : IsZap c.zap global std redirected reset) where
  -- `Main` returns only if the logger was built, `NewProgram` has made the program, the command line
  -- was accepted, and `Run`, at the level that was asked for, returned nil: a validation ended it
  -- early, or all were valid and the group was served. The process then has the global logger back
  -- that it had before, and the standard logger, which writes to standard error.
  pub main-returned :
      (s s' : W)
      → main c s ≡ (returned, s')
      → (r : HasReturned c s s') × (global s' ≡ global r.before) × (std s' ≡ reset (std r.before))
  unfolding main finish
  main-returned s s' h =
      let r = logging-returned c s s' (new_logging_setup c.zap (c.seed s)) refl h in
      let (u, course, done) = r.ran in
      let (during, redirecting, global_back, std_back) =
        replace_globals-restores c.zap global std redirected reset laws r.setup r.before
          (c.stop u) in
      (
        r,
        subst (λ t. global t ≡ global r.before) done global_back,
        subst (λ t. std t ≡ reset (std r.before)) done std_back,
      )

module _ {W Logger Plugins Metrics Router Client Store : Type 0}
    (c : Process W Logger Plugins Metrics Router Client Store) where
  -- `Run`, at the level that was asked for, has returned the error e.
  abbrev pub RunFailed : LoggingSetup Logger → ProgramOf c → ℤ → W → Err → W → Type 0
  RunFailed ls p level s e t = run_program c p (set_level c.zap ls level s) ≡ (err e, t)

  -- Why the process has ended, once the loggers are replaced: what `NewProgram`, the command line or
  -- `Run` came to, and what was the last thing done.
  abbrev pub EndedBy : LoggingSetup Logger → W → ℕ → W → Type 0
  EndedBy ls s status s' =
      let made = make_program c ls.logger (c.notify_context s) in
      ((e : Err) × (t : W) × (made ≡ (err e, t))
        × (status ≡ 1)
        × (s' ≡ c.print ("Setup error: " <> error_text e) t))
      ⊎ ((p : ProgramOf c) × (t : W) × (made ≡ (ok p, t))
          × ((c.parse info_level t ≡ (terminated status, s'))
              ⊎ ((level : ℤ) × (u : W) × (e : Err) × (v : W) × (c.parse info_level t
                    ≡ (level_is level, u))
                  × RunFailed ls p level u e v
                  × (status ≡ 1)
                  × (s' ≡ c.print ("Fatal error: " <> error_text e) v))))

  -- Why the process has ended, from its start in s.
  abbrev pub HasFailed : W → ℕ → W → Type 0
  HasFailed s status s' =
      let setup = new_logging_setup c.zap (c.seed s) in
      ((e : Err) × (t : W) × (setup ≡ (err e, t))
        × (status ≡ 1)
        × (s' ≡ c.fatal_log ("Initializing logger failed: " <> error_text e) t))
      ⊎ ((ls : LoggingSetup Logger) × (t : W) × (setup ≡ (ok ls, t))
          × EndedBy ls (replace_globals c.zap ls t).1 status s')

  status_of : {m n : ℕ} {s t : W} → ◌≡◌ {A = Exit × W} (exited m, s) (exited n, t) → m ≡ n
  status_of e = cc (exit_of e)

  run-exited :
      (ls : LoggingSetup Logger) (restore : W → W) (p : ProgramOf c) (level : ℤ) (s s' : W)
      (r : Result (Unit {0}) × W) (n : ℕ)
      → run_program c p (set_level c.zap ls level s) ≡ r
      → end_of_run c restore r.0 r.1 ≡ (exited n, s')
      → (e : Err) × (t : W) × RunFailed ls p level s e t
        × (n ≡ 1)
        × (s' ≡ c.print ("Fatal error: " <> error_text e) t)
  unfolding end_of_run
  run-exited ls restore p level s s' (ok tt, t) n ran h = absurd (cc (exit_of h))
  run-exited ls restore p level s s' (err e, t) n ran h =
      (e, t, ran, sym (status_of h), sym (end_of h))

  program-exited :
      (ls : LoggingSetup Logger) (restore : W → W) (s : W) (r : Result (ProgramOf c) × W) (s' : W)
      (n : ℕ)
      → make_program c ls.logger (c.notify_context s) ≡ r
      → after_program c ls restore r.0 r.1 ≡ (exited n, s')
      → EndedBy ls s n s'
  unfolding after_program after_parse
  program-exited ls restore s (err e, t) s' n made h =
      inl (e, t, made, sym (status_of h), sym (end_of h))
  program-exited ls restore s (ok p, t) s' n made h =
      inr (p, t, made, parsed (c.parse info_level t) refl h)
    where
      parsed :
          (q : Parsed × W)
          → c.parse info_level t ≡ q
          → after_parse c ls restore p q.0 q.1 ≡ (exited n, s')
          → (c.parse info_level t ≡ (terminated n, s'))
            ⊎ ((level : ℤ) × (u : W) × (e : Err) × (v : W) × (c.parse info_level t
                  ≡ (level_is level, u))
                × RunFailed ls p level u e v
                × (n ≡ 1)
                × (s' ≡ c.print ("Fatal error: " <> error_text e) v))
      parsed (level_is level, u) was h =
          let r = run_program c p (set_level c.zap ls level u) in
          let (e, v, failed, one, printed) = run-exited ls restore p level u s' r n refl h in
          inr (level, u, e, v, was, failed, one, printed)
      parsed (terminated status, u) was h = inl (cc (was, status_of h, end_of h))

  logging-exited :
      (s s' : W) (r : Result (LoggingSetup Logger) × W) (n : ℕ)
      → new_logging_setup c.zap (c.seed s) ≡ r
      → after_logging c r.0 r.1 ≡ (exited n, s')
      → HasFailed s n s'
  unfolding after_logging
  logging-exited s s' (err e, t) n made h = inl (e, t, made, sym (status_of h), sym (end_of h))
  logging-exited s s' (ok ls, t) n made h =
      let (restore, during) = replace_globals c.zap ls t in
      let built = make_program c ls.logger (c.notify_context during) in
      inr (ls, t, made, program-exited ls restore during built s' n refl h)

  -- If `Main` ends the process by itself, it is because the logger was not built, because
  -- `NewProgram` failed, or because `Run` did, at the level that was asked for: then that very error
  -- was reported in the last step before the exit with status 1, so the loggers are not restored, nor
  -- the signals let go. Else the command line has ended the process, with a status of its own.
  pub main-exited : (s s' : W) (n : ℕ) → main c s ≡ (exited n, s') → HasFailed s n s'
  unfolding main
  main-exited s s' n h = logging-exited s s' (new_logging_setup c.zap (c.seed s)) n refl h
