-- ===== src/Core/Serve/Left.antt =====
-- What is left to do for each goroutine of internal/core/program.go, and which steps it can make.
use paperminer.Base.{
  ℕ, ◌+◌, ◌≤◌, ◌<◌, ◌≡◌, ◌≢◌, refl, arith, Bool, true, false, Option, none, some, List, [], ◌∷◌,
  All,
}
use paperminer.Errors.{Err}
use paperminer.Httpsrv.{Main, entering, announcing, returned, finished, Http}
use paperminer.Httpsrv.Shutdown.{IsHttp}
use paperminer.Core.Serve.{
  Starter, pending, started, stopped, Job, unstarted, running, ended, Ends, this, other, start_all,
  any_running,
}
use paperminer.Core.Serve.Parts.{JobAt, Handed}

pub any_running-started :
    (phase : Starter) (f : Option Err) (jobs : List Job)
    → All (JobAt phase f) jobs
    → any_running jobs ≡ true
    → phase ≡ started
unfolding any_running
any_running-started phase f [] at h = absurd (cc h)
any_running-started phase f (unstarted ∷ jobs) at h = any_running-started phase f jobs at.1 h
any_running-started phase f (running ∷ jobs) at h = at.0
any_running-started phase f (ended r ∷ jobs) at h = any_running-started phase f jobs at.1 h

pub each_job_well :
    (f : Option Err) (jobs : List Job)
    → f ≡ none
    → any_running jobs ≡ false
    → All (JobAt started f) jobs
    → All (λ job. job ≡ ended none) jobs
unfolding any_running
each_job_well f [] e still at = tt
each_job_well f (unstarted ∷ jobs) e still at = absurd (at.0 refl)
each_job_well f (running ∷ jobs) e still at = absurd (cc still)
each_job_well f (ended none ∷ jobs) e still at = (refl, each_job_well f jobs e still at.1)
each_job_well f (ended (some x) ∷ jobs) e still at = absurd (cc (rw e at at.0.1))

pub not_stopped :
    (phase : Starter) (f : Option Err) (m : Main)
    → f ≡ none
    → phase ≢ pending
    → Handed phase m f
    → phase ≡ started
not_stopped pending f m e not h = absurd (not refl)
not_stopped started f m e not h = refl
not_stopped stopped f m e not h = absurd (cc (rw e at h.1))

pub returned_nil :
    (h : Http) (done : Bool)
    → h.main ≡ returned none
    → IsHttp done h
    → ((h.helper ≡ finished) × (h.shut ≡ true)) × (done ≡ true)
returned_nil h done at i = ground arith

unfoldable pub starter_left : Starter → ℕ
starter_left pending = 1
starter_left started = 0
starter_left stopped = 0

unfoldable pub job_left : Job → ℕ
job_left unstarted = 2
job_left running = 1
job_left (ended r) = 0

unfoldable pub jobs_left : List Job → ℕ
jobs_left [] = 0
jobs_left (job ∷ jobs) = job_left job + jobs_left jobs

unfoldable pub done_left : Bool → ℕ
done_left true = 0
done_left false = 1

pub jobs_left-Ends :
    {r : Option Err} {jobs jobs' : List Job} → Ends r jobs jobs' → jobs_left jobs' < jobs_left jobs
unfolding jobs_left job_left
jobs_left-Ends this = omega arith
jobs_left-Ends (other ends) = omega (arith, jobs_left-Ends ends)

pub jobs_left-start_all :
    (jobs : List Job)
    → All (λ job. job ≡ unstarted) jobs
    → jobs_left (start_all jobs) ≤ jobs_left jobs
unfolding jobs_left job_left start_all
jobs_left-start_all [] at = omega arith
jobs_left-start_all (job ∷ jobs) at = rw at.0 (omega (arith, jobs_left-start_all jobs at.1))

pub none_started :
    (phase : Starter) (f : Option Err) (jobs : List Job)
    → phase ≡ pending
    → All (JobAt phase f) jobs
    → All (λ job. job ≡ unstarted) jobs
none_started phase f [] e at = tt
none_started phase f (unstarted ∷ jobs) e at = (refl, none_started phase f jobs e at.1)
none_started phase f (running ∷ jobs) e at = absurd (cc)
none_started phase f (ended none ∷ jobs) e at = absurd (cc)
none_started phase f (ended (some x) ∷ jobs) e at = absurd (cc)

pub workflow_can_end :
    (jobs : List Job) → any_running jobs ≡ true → (rest : List Job) × Ends none jobs rest
unfolding any_running
workflow_can_end [] h = absurd (cc h)
workflow_can_end (unstarted ∷ jobs) h =
    let (rest, ends) = workflow_can_end jobs h in (_, other ends)
workflow_can_end (running ∷ jobs) h = (_, this)
workflow_can_end (ended r ∷ jobs) h = let (rest, ends) = workflow_can_end jobs h in (_, other ends)

pub canceled_less : (d d' : Bool) → d ≡ false → d' ≡ true → done_left d' < done_left d
unfolding done_left
canceled_less d d' open_before done = rw (open_before, done) (omega arith)

pub not_before :
    (phase : Starter) (m : Main) (f : Option Err)
    → phase ≡ started
    → Handed phase m f
    → (m ≢ entering) × (m ≢ announcing)
not_before phase m f e h = (λ at. ground arith, λ at. ground arith)

pub not_at_send :
    (phase : Starter) (f : Option Err) (m : Main)
    → phase ≡ started
    → Handed phase m f
    → m ≢ announcing
not_at_send phase f m e h = λ at. ground arith
