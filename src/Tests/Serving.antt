-- ===== src/Tests/Serving.antt =====
-- Runs of the goroutines behind the program: the server, its workflows, and their polls.
use paperminer.Base.{ℕ, ◌≡◌, ◌≢◌, refl, String, Bool, true, false, Option, none, some, [], ◌∷◌, All}
use paperminer.Errors.{Err, sentinel, canceled, server_closed}
use paperminer.Httpsrv.{
  entering, announcing, serving, waiting, returned, finished, initial, after_listen, after_serve,
  label_of, listens, announce, shuts_down, helper_ends, serve_ends, finishes,
}
use paperminer.Core.Serve.{
  http_options, ErrGroup, IsErrGroup, started, running, ended, System, unstarted_jobs,
  initial_system, this, start_all, cancel, http_moves, http_returns, http_ready, workflow_ends,
  Steps, Reach, at_start, later, any_running, IsOver,
}
use paperminer.Core.Serve.Outcome.{workflows_follow_server, wait-eq_nil}
use paperminer.Core.Serve.Deadlock.{early_cancel_deadlocks}

abbrev pub address : String
address = "[::1]:0"

-- A group that is the state of its context and its first error.
pub record Outcome : Type 0 where
  pub done : Bool
  pub first : Option Err

abbrev kept : Option Err → Err → Option Err
kept none e = some e
kept (some f) e = some f

abbrev reported : Option Err → Outcome → Outcome
reported none g = g
reported (some e) g = record g { done = true; first = kept g.first e }

abbrev pub group : ErrGroup Outcome
group = record {
  with_context = record { done = false; first = none };
  ctx_done = λ g. g.done;
  failure = λ g. g.first;
  report = reported;
  end_parent = λ g. record g { done = true };
}

pub group-IsErrGroup : IsErrGroup group
group-IsErrGroup = record {
  runs = refl;
  no_failure = refl;
  nil_is_nothing = λ g. refl;
  error_cancels = λ g e. refl;
  first_error = λ g e h. rw h refl;
  later_error = λ g e f h. rw h refl;
  parent_cancels = λ g. refl;
  parent_is_no_failure = λ g. refl;
}

-- The server of a program with one workflow is ready, and the workflow runs.
abbrev ready : System Outcome
ready = record {
  http = record { main = serving; helper = waiting; shut = false };
  starter = started;
  jobs = running ∷ [];
  group = record { done = false; first = none };
}

ready-Reach : Reach group (http_options address) 1 ready
unfolding initial_system initial after_listen http_options start_all unstarted_jobs
ready-Reach =
    later (later at_start (http_moves (listens refl) refl)) (http_ready (announce refl) refl refl)

abbrev stopping_run : System Outcome
stopping_run = record ready { group = record { done = true; first = none } }

stopping_run-Reach : Reach group (http_options address) 1 stopping_run
stopping_run-Reach = later ready-Reach (cancel refl)

-- The server has shut down, and the workflow has returned after it.
abbrev over : System Outcome
over = record {
  http = record { main = returned none; helper = finished; shut = true };
  starter = started;
  jobs = ended none ∷ [];
  group = record { done = true; first = none };
}

over-Reach : Reach group (http_options address) 1 over
unfolding label_of after_serve
over-Reach =
    let s1 = later stopping_run-Reach (http_moves (shuts_down refl refl) refl) in
    let s2 = later s1 (http_moves (helper_ends refl) refl) in
    let s3 = later s2 (http_moves (serve_ends (sentinel server_closed) refl (λ e. refl)) refl) in
    let s4 = later s3 (http_returns none (finishes refl refl) refl) in
    later s4 (workflow_ends none this)

workflows_follow_server_example :
    (ready.starter ≡ started) × (ready.http.main ≢ entering) × (ready.http.main ≢ announcing)
unfolding any_running
workflows_follow_server_example =
    workflows_follow_server group group-IsErrGroup address 1 ready ready-Reach refl

wait-eq_nil_example :
    (over.group.done ≡ true)
    × (over.http.main ≡ returned none)
    × (over.http.helper ≡ finished)
    × (over.http.shut ≡ true)
    × (over.starter ≡ started)
    × All (λ job. job ≡ ended none) over.jobs
unfolding any_running
wait-eq_nil_example =
    wait-eq_nil group group-IsErrGroup address 1 over over-Reach ((none, refl), (λ e. cc), refl)
      refl

early_cancel_deadlocks_example :
    (s : System Outcome) × Reach group (http_options address) 1 s
    × (s.group.done ≡ true)
    × (s.group.first ≡ some (sentinel canceled))
    × ((n : ℕ) (t : System Outcome) → Steps group (http_options address) n s t → ¬ IsOver t)
early_cancel_deadlocks_example = early_cancel_deadlocks group group-IsErrGroup address 1
