-- ===== src/Core/Serve/Invariant.antt =====
-- What holds whenever the goroutines of internal/core/program.go run, whatever their order.
use paperminer.Base.{
  ℕ, ◌≡◌, ◌≢◌, refl, true, Option, none, some, List, All, inl, inr, sym, subst, Option-cases,
}
use paperminer.Errors.{Err, sentinel, canceled}
use paperminer.Httpsrv.{
  ListenAndServeOptions, returned, Http, initial, Label, announces, returns, HttpStep,
}
use paperminer.Httpsrv.Shutdown.{IsHttp, initial-IsHttp, canceled_later, HttpStep-IsHttp}
use paperminer.Core.Serve.{
  ErrGroup, IsErrGroup, pending, started, stopped, Job, System, initial_system, Ends, start_all,
  Step, cancel, http_moves, http_returns, http_ready, starter_stops, workflow_ends, Reach, at_start,
  later,
}
use paperminer.Core.Serve.Parts.{
  has_failed, Handed, JobAt, unstarted_jobs-All, JobAt-started, All-JobAt-failed, Handed-failed,
  All-JobAt-stopped, HttpStep-Handed, label-returned, Ends-begun, HttpStep-late, early_stop,
}

module _ {G : Type 0} (eg : ErrGroup G) where
  -- Workflows run only once the server has handed over its address. The first failure is the group's,
  -- and cancels the context.
  pub record IsSystem (s : System G) : Type 0 where
    pub http : IsHttp (eg.ctx_done s.group) s.http
    pub handed : Handed s.starter s.http.main (eg.failure s.group)
    pub begun : All (JobAt s.starter (eg.failure s.group)) s.jobs
    pub failed : has_failed (eg.failure s.group) ≡ true → eg.ctx_done s.group ≡ true
    pub reported :
        (e : Err) → s.http.main ≡ returned (some e) → has_failed (eg.failure s.group) ≡ true

module _ {G : Type 0} (eg : ErrGroup G) (documented : IsErrGroup eg) where
  initial_system-IsSystem : (n : ℕ) → IsSystem eg (initial_system eg n)
  unfolding initial_system initial
  initial_system-IsSystem n = record {
    http = initial-IsHttp (eg.ctx_done eg.with_context);
    handed = refl;
    begun = unstarted_jobs-All n pending _ (λ e. cc);
    failed = λ e. absurd (cc (rw documented.no_failure at e));
    reported = λ e h. cc;
  }

  error-has_failed : (g : G) (e : Err) → has_failed (eg.failure (eg.report (some e) g)) ≡ true
  error-has_failed g e = elim (Option-cases (eg.failure g)) [
    | inl none_before ↦ rw (documented.first_error g e none_before) refl
    | inr (f, before) ↦ rw (documented.later_error g e f before) refl
  ]

  -- What a function of the group that fails leaves behind, in a state that differs by its group.
  failed-IsSystem :
      (e : Err) (s : System G) (g : G)
      → IsHttp (eg.ctx_done g) s.http
      → Handed s.starter s.http.main (some e)
      → All (JobAt s.starter (some e)) s.jobs
      → IsSystem eg (record s { group = eg.report (some e) g })
  failed-IsSystem e s g http handed begun =
      let f = error-has_failed g e in
      record {
        http = rw (documented.error_cancels g e) (canceled_later s.http (eg.ctx_done g) http);
        handed = Handed-failed s.starter s.http.main (some e) _ f handed;
        begun = All-JobAt-failed s.starter (some e) _ s.jobs f begun;
        failed = λ h. documented.error_cancels g e;
        reported = λ x h. f;
      }

  -- A step of the server that neither shows the address nor fails.
  http-IsSystem :
      {opts : ListenAndServeOptions} {s : System G} {l : Label} {h : Http}
      → opts.ready_ch ≡ true
      → HttpStep opts (eg.ctx_done s.group) s.http l h
      → l ≢ announces
      → ((e : Err) → l ≢ returns (some e))
      → IsSystem eg s
      → IsSystem eg (record s { http = h })
  http-IsSystem {s} ready st quiet fine i = record {
    http = HttpStep-IsHttp st i.http;
    handed = HttpStep-Handed s.starter _ ready st quiet i.handed;
    begun = i.begun;
    failed = i.failed;
    reported = λ e at. elim (label-returned e st at) [
      | inl before ↦ i.reported e before
      | inr shown ↦ absurd (fine e shown)
    ];
  }

  returned-IsSystem :
      {opts : ListenAndServeOptions} {s : System G} {l : Label} {h : Http} (r : Option Err)
      → opts.ready_ch ≡ true
      → HttpStep opts (eg.ctx_done s.group) s.http l h
      → l ≡ returns r
      → IsSystem eg s
      → IsSystem eg (record s { http = h; group = eg.report r s.group })
  returned-IsSystem {s} {h} none ready st shows i =
      subst (λ g. IsSystem eg (record s { http = h; group = g }))
        (sym (documented.nil_is_nothing s.group)) (http-IsSystem ready st (λ e. cc) (λ e a. cc) i)
  returned-IsSystem {s} {h} (some e) ready st shows i =
      failed-IsSystem e (record s { http = h }) s.group (HttpStep-IsHttp st i.http)
        (HttpStep-Handed s.starter (some e) ready st (λ e. cc)
          (Handed-failed s.starter s.http.main _ (some e) refl i.handed))
        (All-JobAt-failed s.starter _ (some e) s.jobs refl i.begun)

  ended-IsSystem :
      {s : System G} {jobs : List Job} (r : Option Err)
      → Ends r s.jobs jobs
      → IsSystem eg s
      → IsSystem eg (record s { jobs = jobs; group = eg.report r s.group })
  ended-IsSystem {s} {jobs} none ends i =
      subst (λ g. IsSystem eg (record s { jobs = jobs; group = g }))
        (sym (documented.nil_is_nothing s.group))
        (record {
          http = i.http;
          handed = i.handed;
          begun = Ends-begun s.starter _ ends (λ at. at) i.begun;
          failed = i.failed;
          reported = i.reported;
        })
  ended-IsSystem {s} {jobs} (some e) ends i =
      let some_begun = All-JobAt-failed s.starter _ (some e) s.jobs refl i.begun in
      failed-IsSystem e (record s { jobs = jobs }) s.group i.http
        (Handed-failed s.starter s.http.main _ (some e) refl i.handed)
        (Ends-begun s.starter (some e) ends (λ at. (at, refl)) some_begun)

  pub Step-IsSystem :
      {opts : ListenAndServeOptions} {s t : System G}
      → opts.ready_ch ≡ true
      → Step eg opts s t
      → IsSystem eg s
      → IsSystem eg t
  Step-IsSystem {s} ready (cancel not) i = record {
    http = rw (documented.parent_cancels s.group) (canceled_later s.http _ i.http);
    handed = rw (documented.parent_is_no_failure s.group) i.handed;
    begun = rw (documented.parent_is_no_failure s.group) i.begun;
    failed = λ h. documented.parent_cancels s.group;
    reported = rw (documented.parent_is_no_failure s.group) i.reported;
  }
  Step-IsSystem ready (http_moves st quiet) i = http-IsSystem ready st (λ e. cc) (λ e a. cc) i
  Step-IsSystem ready (http_returns r st ends) i = returned-IsSystem r ready st ends i
  Step-IsSystem {s} ready (http_ready {h} st shows at) i =
      subst
        (λ g.
          IsSystem eg
            (record s { http = h; starter = started; jobs = start_all s.jobs; group = g }))
        (sym (documented.nil_is_nothing s.group))
        (record {
          http = HttpStep-IsHttp st i.http;
          handed = HttpStep-late st shows;
          begun = JobAt-started _ s.jobs;
          failed = i.failed;
          reported = λ e m. elim (label-returned e st m) [
            | inl before ↦ i.reported e before
            | inr shown ↦ absurd (cc)
          ];
        })
  Step-IsSystem {s} ready (starter_stops at d) i =
      failed-IsSystem (sentinel canceled) (record s { starter = stopped }) s.group i.http
        (early_stop s.starter s.http.main _ (sentinel canceled) at i.handed)
        (All-JobAt-stopped s.starter _ (some (sentinel canceled)) s.jobs at i.begun)
  Step-IsSystem ready (workflow_ends r ends) i = ended-IsSystem r ends i

  pub Reach-IsSystem :
      {opts : ListenAndServeOptions} {n : ℕ} {s : System G}
      → opts.ready_ch ≡ true
      → Reach eg opts n s
      → IsSystem eg s
  Reach-IsSystem {n} ready at_start = initial_system-IsSystem n
  Reach-IsSystem ready (later r st) = Step-IsSystem ready st (Reach-IsSystem ready r)
