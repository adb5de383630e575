-- ===== src/Core/Serve.antt =====
-- The goroutines that `(*Program).Run` of internal/core/program.go starts in its error group: the
-- HTTP server, the start of the workflows once the server is ready, and the workflows. Which step
-- comes next is the scheduler's choice; a workflow may return at any time, with any result.
pub mod Parts
pub mod Invariant
pub mod Left
pub mod Outcome
pub mod Deadlock
use paperminer.Base.{
  ℕ, zero, suc, String, Bool, true, false, ◌||◌, ◌≡◌, ◌≢◌, Option, none, some, List, [], ◌∷◌,
}
use paperminer.Errors.{Err, sentinel, canceled}
use paperminer.Httpsrv.{
  ListenAndServeOptions, Http, returned, initial, Label, silent, announces, returns, HttpStep,
}

-- The options that `Run` passes on.
unfoldable pub http_options : String → ListenAndServeOptions
http_options listen_address = record {
  network = "";
  address = listen_address;
  ready_ch = true;
  shutdown_timeout = 0;
}

-- The goroutine that starts the workflows: at its `select`, or returned, after the receive or with
-- `ctx.Err()`.
pub data Starter : Type 0 where
  pending started stopped : Starter

-- `Run` of a workflow: not called yet, running, or returned.
pub data Job : Type 0 where
  unstarted running : Job
  ended : Option Err → Job

-- golang.org/x/sync/errgroup, as far as it is used: a group made with a context, whether that context
-- is done, the first error, and what happens when a function of the group returns or when the
-- parent context ends.
pub record ErrGroup (G : Type 0) : Type 0 where
  pub with_context : G
  pub ctx_done : G → Bool
  pub failure : G → Option Err
  pub report : Option Err → G → G
  pub end_parent : G → G

-- What is documented of it: the first call to return an error cancels the context, and its error is
-- the one that `Wait` returns.
pub record IsErrGroup {G : Type 0} (eg : ErrGroup G) : Type 0 where
  pub runs : eg.ctx_done eg.with_context ≡ false
  pub no_failure : eg.failure eg.with_context ≡ none
  pub nil_is_nothing : (g : G) → eg.report none g ≡ g
  pub error_cancels : (g : G) (e : Err) → eg.ctx_done (eg.report (some e) g) ≡ true
  pub first_error :
      (g : G) (e : Err) → eg.failure g ≡ none → eg.failure (eg.report (some e) g) ≡ some e
  pub later_error :
      (g : G) (e f : Err) → eg.failure g ≡ some f → eg.failure (eg.report (some e) g) ≡ some f
  pub parent_cancels : (g : G) → eg.ctx_done (eg.end_parent g) ≡ true
  pub parent_is_no_failure : (g : G) → eg.failure (eg.end_parent g) ≡ eg.failure g

pub record System (G : Type 0) : Type 0 where
  pub http : Http
  pub starter : Starter
  pub jobs : List Job
  pub group : G

unfoldable pub unstarted_jobs : ℕ → List Job
unstarted_jobs zero = []
unstarted_jobs (suc n) = unstarted ∷ unstarted_jobs n

-- One of the running workflows returns.
pub data Ends (r : Option Err) : List Job → List Job → Type 0 where
  this : {jobs : List Job} → Ends r (running ∷ jobs) (ended r ∷ jobs)
  other :
      {job : Job} {jobs jobs' : List Job} → Ends r jobs jobs' → Ends r (job ∷ jobs) (job ∷ jobs')

unfoldable pub start_all : List Job → List Job
start_all [] = []
start_all (job ∷ jobs) = running ∷ start_all jobs

module _ {G : Type 0} (eg : ErrGroup G) where
  unfoldable pub initial_system : ℕ → System G
  initial_system workflows = record {
    http = initial;
    starter = pending;
    jobs = unstarted_jobs workflows;
    group = eg.with_context;
  }

  pub data Step (opts : ListenAndServeOptions) (s : System G) : System G → Type 0 where
    cancel : eg.ctx_done s.group ≡ false → Step opts s (record s { group = eg.end_parent s.group })
    http_moves :
        {l : Label} {h : Http}
        → HttpStep opts (eg.ctx_done s.group) s.http l h
        → l ≡ silent
        → Step opts s (record s { http = h })
    http_returns :
        {l : Label} {h : Http} (r : Option Err)
        → HttpStep opts (eg.ctx_done s.group) s.http l h
        → l ≡ returns r
        → Step opts s (record s { http = h; group = eg.report r s.group })
    http_ready :
        {l : Label} {h : Http}
        → HttpStep opts (eg.ctx_done s.group) s.http l h
        → l ≡ announces
        → s.starter ≡ pending
        → Step opts s (record s {
          http = h;
          starter = started;
          jobs = start_all s.jobs;
          group = eg.report none s.group;
        })
    starter_stops :
        s.starter ≡ pending
        → eg.ctx_done s.group ≡ true
        → Step opts s
            (record s { starter = stopped; group = eg.report (some (sentinel canceled)) s.group })
    workflow_ends :
        (r : Option Err) {jobs : List Job}
        → Ends r s.jobs jobs
        → Step opts s (record s { jobs = jobs; group = eg.report r s.group })

  -- `Steps opts n s t`: n steps lead from s to t.
  pub data Steps (opts : ListenAndServeOptions) : ℕ → System G → System G → Type 0 where
    here : {s : System G} → Steps opts zero s s
    before : {n : ℕ} {s t u : System G} → Step opts s t → Steps opts n t u → Steps opts (suc n) s u

  pub data Reach (opts : ListenAndServeOptions) (workflows : ℕ) : System G → Type 0 where
    at_start : Reach opts workflows (initial_system workflows)
    later : {s t : System G} → Reach opts workflows s → Step opts s t → Reach opts workflows t

abbrev is_running : Job → Bool
is_running unstarted = false
is_running running = true
is_running (ended r) = false

unfoldable pub any_running : List Job → Bool
any_running [] = false
any_running (job ∷ jobs) = is_running job || any_running jobs

-- `Wait` returns, with the first failure, once every function of the group has returned. Workflows
-- that were never started are no functions of the group.
abbrev pub IsOver : {G : Type 0} → System G → Type 0
IsOver s =
    ((r : Option Err) × (s.http.main ≡ returned r))
    × (s.starter ≢ pending)
    × (any_running s.jobs ≡ false)
