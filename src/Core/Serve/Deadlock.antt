-- ===== src/Core/Serve/Deadlock.antt =====
-- An early end of the context, as internal/core/program.go and internal/httpsrv/server.go meet it.
use paperminer.Base.{ℕ, String, ◌≡◌, ◌≢◌, refl, ◌∙◌, arith, Bool, true, some}
use paperminer.Errors.{sentinel, canceled}
use paperminer.Httpsrv.{
  ListenAndServeOptions, announcing, Http, initial, with_defaults, Label, announces, after_listen,
  after_serve, HttpStep, listen_fails, listens, announce, shuts_down, helper_ends, serve_ends,
  finishes,
}
use paperminer.Core.Serve.{
  http_options, ErrGroup, IsErrGroup, stopped, System, initial_system, Step, cancel, http_moves,
  http_returns, http_ready, starter_stops, workflow_ends, Steps, here, before, Reach, at_start,
  later, IsOver,
}

HttpStep-announcing :
    {opts : ListenAndServeOptions} {done : Bool} {h h' : Http} {l : Label}
    → HttpStep opts done h l h'
    → l ≢ announces
    → h.main ≡ announcing
    → h'.main ≡ announcing
unfolding after_listen after_serve
HttpStep-announcing (listen_fails e at) not m = ground arith
HttpStep-announcing (listens at) not m = ground arith
HttpStep-announcing (announce at) not m = absurd (not refl)
HttpStep-announcing (shuts_down at d) not m = m
HttpStep-announcing (helper_ends at) not m = m
HttpStep-announcing (serve_ends e at shut) not m = ground arith
HttpStep-announcing (finishes at ends) not m = ground arith

module _ {G : Type 0} (eg : ErrGroup G) where
  -- The server waits for a receiver, and the only one has left.
  IsDeadlocked : System G → Type 0
  IsDeadlocked s = (s.http.main ≡ announcing) × (s.starter ≡ stopped)

  Step-IsDeadlocked :
      {opts : ListenAndServeOptions} {s t : System G}
      → Step eg opts s t
      → IsDeadlocked s
      → IsDeadlocked t
  unfolding IsDeadlocked
  Step-IsDeadlocked (cancel not) d = d
  Step-IsDeadlocked (http_moves st quiet) d = (HttpStep-announcing st (λ e. cc) d.0, d.1)
  Step-IsDeadlocked (http_returns r st ends) d = (HttpStep-announcing st (λ e. cc) d.0, d.1)
  Step-IsDeadlocked (http_ready st shows at) d = absurd (cc)
  Step-IsDeadlocked (starter_stops at done) d = absurd (cc)
  Step-IsDeadlocked (workflow_ends r ends) d = d

  Steps-IsDeadlocked :
      {opts : ListenAndServeOptions} {n : ℕ} {s t : System G}
      → Steps eg opts n s t
      → IsDeadlocked s
      → IsDeadlocked t
  Steps-IsDeadlocked here d = d
  Steps-IsDeadlocked (before st rest) d = Steps-IsDeadlocked rest (Step-IsDeadlocked st d)

  stays_open : (t : System G) → IsDeadlocked t → ¬ IsOver t
  unfolding IsDeadlocked
  stays_open t d ((r, at), _, _) = absurd (cc)

module _ {G : Type 0} (eg : ErrGroup G) (documented : IsErrGroup eg) where
  -- A context that is canceled after the server has begun to listen, and before its address was
  -- received, can leave `Run` waiting for good: the goroutine that would receive the address has
  -- returned, the server waits to send it, and no further steps make the group's `Wait` return. The
  -- group has failed with the context's error by then.
  pub early_cancel_deadlocks :
      (address : String) (workflows : ℕ)
      → (s : System G) × Reach eg (http_options address) workflows s
        × (eg.ctx_done s.group ≡ true)
        × (eg.failure s.group ≡ some (sentinel canceled))
        × ((n : ℕ) (t : System G) → Steps eg (http_options address) n s t → ¬ IsOver t)
  unfolding http_options initial_system initial after_listen with_defaults IsDeadlocked
  early_cancel_deadlocks address workflows =
      let ended = documented.parent_cancels eg.with_context in
      let open_group = documented.parent_is_no_failure eg.with_context ∙ documented.no_failure in
      (
        _,
        later (later (later at_start (http_moves (listens refl) refl)) (cancel documented.runs))
            (starter_stops refl ended),
        documented.error_cancels (eg.end_parent eg.with_context) (sentinel canceled),
        documented.first_error (eg.end_parent eg.with_context) (sentinel canceled) open_group,
        λ n t steps over. stays_open eg t (Steps-IsDeadlocked eg steps (refl, refl)) over,
      )
