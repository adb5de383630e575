-- ===== src/Core/Serve/Outcome.antt =====
-- What the goroutines of internal/core/program.go do in order, and how they end.
use paperminer.Base.{
  ℕ, ◌+◌, ◌≤◌, ◌<◌, ◌≡◌, ◌≢◌, refl, sym, subst, ap, ◌∙◌, arith, String, true, Option, none, some,
  All, ◌⊎◌, inl, inr, Bool-cases,
}
use paperminer.Errors.{Err, sentinel, canceled}
use paperminer.Httpsrv.{
  ListenAndServeOptions, entering, announcing, returned, finished, Http, Label, silent, announces,
  returns, HttpStep,
}
use paperminer.Httpsrv.Shutdown.{http_left, HttpStep-http_left, canceled_progress}
use paperminer.Core.Serve.{
  http_options, ErrGroup, IsErrGroup, pending, started, ended, System, Step, cancel, http_moves,
  http_returns, http_ready, starter_stops, workflow_ends, Steps, here, before, Reach, any_running,
  IsOver,
}
use paperminer.Core.Serve.Parts.{JobAt}
use paperminer.Core.Serve.Invariant.{IsSystem, Step-IsSystem, Reach-IsSystem}
use paperminer.Core.Serve.Left.{
  any_running-started, each_job_well, not_stopped, returned_nil, starter_left, jobs_left, done_left,
  jobs_left-Ends, jobs_left-start_all, none_started, workflow_can_end, canceled_less, not_before,
  not_at_send,
}

module _ {G : Type 0} (eg : ErrGroup G) where
  unfoldable pub system_left : System G → ℕ
  system_left s =
      http_left s.http + starter_left s.starter + jobs_left s.jobs + done_left (eg.ctx_done s.group)

  -- Any step at all.
  abbrev pub CanStep : ListenAndServeOptions → System G → Type 0
  CanStep opts s = (t : System G) × Step eg opts s t

  http-CanStep :
      {opts : ListenAndServeOptions} {s : System G} (l : Label) {h : Http}
      → HttpStep opts (eg.ctx_done s.group) s.http l h
      → l ≢ announces
      → CanStep opts s
  http-CanStep silent st not = (_, http_moves st refl)
  http-CanStep announces st not = absurd (not refl)
  http-CanStep (returns r) st not = (_, http_returns r st refl)

  pub canceled-CanStep :
      {opts : ListenAndServeOptions} (s : System G)
      → IsSystem eg s
      → eg.ctx_done s.group ≡ true
      → s.starter ≢ pending
      → IsOver s ⊎ (CanStep opts s ⊎ (s.http.main ≡ announcing))
  canceled-CanStep {opts} s i done not = elim (Bool-cases (any_running s.jobs)) [
    | inl runs ↦
        let (rest, ends) = workflow_can_end s.jobs runs in inr (inl (_, workflow_ends none ends))
    | inr still ↦
        elim (canceled_progress opts s.http.main s.http.helper s.http.shut (rw done at i.http)) [
          | inl (l, h, st, not_announces) ↦ inr (
              inl (
                http-CanStep l (subst (λ d. HttpStep opts d s.http l h) (sym done) st)
                  not_announces))
          | inr (inl back) ↦ inl (back, not, still)
          | inr (inr at) ↦ inr (inr at)
        ]
  ]

module _ {G : Type 0} (eg : ErrGroup G) (documented : IsErrGroup eg) where
  -- Whatever the order of steps, a workflow runs only after the server has begun to listen and has
  -- handed over its address.
  pub workflows_follow_server :
      (address : String) (workflows : ℕ) (s : System G)
      → Reach eg (http_options address) workflows s
      → any_running s.jobs ≡ true
      → (s.starter ≡ started) × (s.http.main ≢ entering) × (s.http.main ≢ announcing)
  unfolding http_options
  workflows_follow_server address workflows s r runs =
      let i = Reach-IsSystem eg documented refl r in
      let begun = any_running-started s.starter _ s.jobs i.begun runs in
      let (a, b) = not_before s.starter s.http.main _ begun i.handed in (begun, a, b)

  -- When all goroutines have returned and the group has no error, so that `Run` returns nil: the
  -- context was canceled, the server was shut down before it returned nil, and every workflow was
  -- started and has returned nil.
  pub wait-eq_nil :
      (address : String) (workflows : ℕ) (s : System G)
      → Reach eg (http_options address) workflows s
      → IsOver s
      → eg.failure s.group ≡ none
      → (eg.ctx_done s.group ≡ true)
        × (s.http.main ≡ returned none)
        × (s.http.helper ≡ finished)
        × (s.http.shut ≡ true)
        × (s.starter ≡ started)
        × All (λ job. job ≡ ended none) s.jobs
  unfolding http_options
  wait-eq_nil address workflows s r ((some e, at), not_pending, still) well =
      absurd (cc (rw well at (Reach-IsSystem eg documented refl r).reported e at))
  wait-eq_nil address workflows s r ((none, at), not_pending, still) well =
      let i = Reach-IsSystem eg documented refl r in
      let (ends, done) = returned_nil s.http _ at i.http in
      let begun = not_stopped s.starter _ s.http.main well not_pending i.handed in
      let jobs_at = subst (λ p. All (JobAt p (eg.failure s.group)) s.jobs) begun i.begun in
      (
        done,
        at,
        ends.0,
        ends.1,
        begun,
        each_job_well (eg.failure s.group) s.jobs well still jobs_at,
      )

  report-done_left :
      (r : Option Err) (g : G) → done_left (eg.ctx_done (eg.report r g)) ≤ done_left (eg.ctx_done g)
  unfolding done_left
  report-done_left none g = rw (documented.nil_is_nothing g) (omega arith)
  report-done_left (some e) g = rw (documented.error_cancels g e) (omega arith)

  -- Every step of a reachable system leaves less to do.
  pub Step-system_left :
      {opts : ListenAndServeOptions} {s t : System G}
      → Step eg opts s t
      → IsSystem eg s
      → system_left eg t < system_left eg s
  unfolding system_left starter_left
  Step-system_left {s} (cancel not) i =
      omega (arith, canceled_less (eg.ctx_done s.group) _ not (documented.parent_cancels s.group))
  Step-system_left (http_moves st quiet) i = omega (arith, HttpStep-http_left st i.http)
  Step-system_left {s} (http_returns r st ends) i =
      omega (arith, HttpStep-http_left st i.http, report-done_left r s.group)
  Step-system_left {s} (http_ready st shows at) i = omega (
    arith,
    HttpStep-http_left st i.http,
    report-done_left none s.group,
    jobs_left-start_all s.jobs (none_started s.starter _ s.jobs at i.begun),
  )
  Step-system_left {s} (starter_stops at d) i =
      omega (arith, report-done_left (some (sentinel canceled)) s.group, ap starter_left at)
  Step-system_left {s} (workflow_ends r ends) i =
      omega (arith, jobs_left-Ends ends, report-done_left r s.group)

  Steps-IsSystem :
      {opts : ListenAndServeOptions} {n : ℕ} {s t : System G}
      → opts.ready_ch ≡ true
      → Steps eg opts n s t
      → IsSystem eg s
      → IsSystem eg t
  Steps-IsSystem ready here i = i
  Steps-IsSystem ready (before st rest) i =
      Steps-IsSystem ready rest (Step-IsSystem eg documented ready st i)

  -- No run is longer than what is left to do at its start.
  pub Steps-system_left :
      {opts : ListenAndServeOptions} {n : ℕ} {s t : System G}
      → opts.ready_ch ≡ true
      → Steps eg opts n s t
      → IsSystem eg s
      → n + system_left eg t ≤ system_left eg s
  Steps-system_left ready here i = omega arith
  Steps-system_left ready (before st rest) i = omega (
    arith,
    Step-system_left st i,
    Steps-system_left ready rest (Step-IsSystem eg documented ready st i),
  )

  -- What stays: a context that is done, and how the starter has returned.
  unfoldable pub Stays : System G → System G → Type 0
  Stays s t =
      (eg.ctx_done s.group ≡ true → eg.ctx_done t.group ≡ true)
      × (s.starter ≢ pending → t.starter ≡ s.starter)

  report-done : (r : Option Err) (g : G) → eg.ctx_done g ≡ true → eg.ctx_done (eg.report r g) ≡ true
  report-done none g d = rw (documented.nil_is_nothing g) d
  report-done (some e) g d = documented.error_cancels g e

  pub Step-Stays : {opts : ListenAndServeOptions} {s t : System G} → Step eg opts s t → Stays s t
  unfolding Stays
  Step-Stays {s} (cancel not) = (λ d. documented.parent_cancels s.group, λ p. refl)
  Step-Stays (http_moves st quiet) = (λ d. d, λ p. refl)
  Step-Stays {s} (http_returns r st ends) = (report-done r s.group, λ p. refl)
  Step-Stays {s} (http_ready st shows at) = (report-done none s.group, λ p. absurd (p at))
  Step-Stays {s} (starter_stops at d) = (report-done _ s.group, λ p. absurd (p at))
  Step-Stays {s} (workflow_ends r ends) = (report-done r s.group, λ p. refl)

  Steps-Stays :
      {opts : ListenAndServeOptions} {n : ℕ} {s t : System G} → Steps eg opts n s t → Stays s t
  unfolding Stays
  Steps-Stays here = (λ d. d, λ p. refl)
  Steps-Stays (before st rest) =
      let (done, same) = Step-Stays st in
      let (done', same') = Steps-Stays rest in
      (λ d. done' (done d), λ p. same' (λ e. p (sym (same p) ∙ e)) ∙ same p)

  -- Once the workflows are started and the context is done, the group comes to its end: whatever
  -- happens in whatever order, only so many steps remain, and as long as not all goroutines have
  -- returned one of them can go on.
  pub shutdown_ends :
      (address : String) (workflows n : ℕ) (s t : System G)
      → Reach eg (http_options address) workflows s
      → s.starter ≡ started
      → eg.ctx_done s.group ≡ true
      → Steps eg (http_options address) n s t
      → (n + system_left eg t ≤ system_left eg s) × (IsOver t ⊎ CanStep eg (http_options address) t)
  unfolding http_options Stays
  shutdown_ends address workflows n s t r begun done steps =
      let i = Reach-IsSystem eg documented refl r in
      let it = Steps-IsSystem refl steps i in
      let (still_done, same) = Steps-Stays steps in
      let begun_t = same (λ e. absurd (cc)) ∙ begun in
      (
        Steps-system_left refl steps i,
        elim (canceled-CanStep eg t it (still_done done) (λ e. absurd (cc))) [
          | inl over ↦ inl over
          | inr (inl can) ↦ inr can
          | inr (inr at) ↦ absurd (not_at_send t.starter _ t.http.main begun_t it.handed at)
        ],
      )
