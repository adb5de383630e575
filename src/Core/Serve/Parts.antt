-- ===== src/Core/Serve/Parts.antt =====
-- What each goroutine of internal/core/program.go keeps to, beside the others.
use paperminer.Base.{
  ℕ, zero, suc, ◌≡◌, ◌≢◌, refl, arith, Bool, true, false, Option, none, some, List, [], ◌∷◌, All,
  ◌⊎◌,
}
use paperminer.Errors.{Err}
use paperminer.Httpsrv.{
  ListenAndServeOptions, Main, entering, announcing, serving, awaiting, returned, Http, Label,
  label_of, announces, returns, after_listen, after_serve, HttpStep, listen_fails, listens,
  announce, shuts_down, helper_ends, serve_ends, finishes,
}
use paperminer.Core.Serve.{
  Starter, pending, started, stopped, Job, unstarted, running, ended, unstarted_jobs, Ends, this,
  other, start_all,
}

abbrev pub has_failed : Option Err → Bool
has_failed none = false
has_failed (some e) = true

-- Whether the server has not handed over its address, or has.
abbrev pub early : Main → Bool
early entering = true
early announcing = true
early serving = false
early awaiting = false
early (returned none) = false
early (returned (some e)) = true

abbrev pub late : Main → Bool
late entering = false
late announcing = false
late serving = true
late awaiting = true
late (returned r) = true

abbrev pub Handed : Starter → Main → Option Err → Type 0
Handed pending m f = early m ≡ true
Handed started m f = late m ≡ true
Handed stopped m f = (early m ≡ true) × (has_failed f ≡ true)

abbrev pub JobAt : Starter → Option Err → Job → Type 0
JobAt phase f unstarted = phase ≢ started
JobAt phase f running = phase ≡ started
JobAt phase f (ended none) = phase ≡ started
JobAt phase f (ended (some e)) = (phase ≡ started) × (has_failed f ≡ true)

pub unstarted_jobs-All :
    (n : ℕ) (phase : Starter) (f : Option Err)
    → phase ≢ started
    → All (JobAt phase f) (unstarted_jobs n)
unfolding unstarted_jobs
unstarted_jobs-All zero phase f not = tt
unstarted_jobs-All (suc n) phase f not = (not, unstarted_jobs-All n phase f not)

pub JobAt-started : (f : Option Err) (jobs : List Job) → All (JobAt started f) (start_all jobs)
unfolding start_all
JobAt-started f [] = tt
JobAt-started f (job ∷ jobs) = (refl, JobAt-started f jobs)

pub JobAt-failed :
    (phase : Starter) (f g : Option Err) (job : Job)
    → has_failed g ≡ true
    → JobAt phase f job
    → JobAt phase g job
JobAt-failed phase f g unstarted h at = at
JobAt-failed phase f g running h at = at
JobAt-failed phase f g (ended none) h at = at
JobAt-failed phase f g (ended (some e)) h at = (at.0, h)

pub All-JobAt-failed :
    (phase : Starter) (f g : Option Err) (jobs : List Job)
    → has_failed g ≡ true
    → All (JobAt phase f) jobs
    → All (JobAt phase g) jobs
All-JobAt-failed phase f g [] h at = tt
All-JobAt-failed phase f g (job ∷ jobs) h at =
    (JobAt-failed phase f g job h at.0, All-JobAt-failed phase f g jobs h at.1)

pub Handed-failed :
    (phase : Starter) (m : Main) (f g : Option Err)
    → has_failed g ≡ true
    → Handed phase m f
    → Handed phase m g
Handed-failed pending m f g h at = at
Handed-failed started m f g h at = at
Handed-failed stopped m f g h at = (at.0, h)

pub JobAt-stopped : (f g : Option Err) (job : Job) → JobAt pending f job → JobAt stopped g job
JobAt-stopped f g unstarted at = λ e. cc
JobAt-stopped f g running at = absurd (cc)
JobAt-stopped f g (ended none) at = absurd (cc)
JobAt-stopped f g (ended (some e)) at = absurd (cc at.0)

pub All-JobAt-stopped :
    (phase : Starter) (f g : Option Err) (jobs : List Job)
    → phase ≡ pending
    → All (JobAt phase f) jobs
    → All (JobAt stopped g) jobs
All-JobAt-stopped phase f g [] e at = tt
All-JobAt-stopped phase f g (job ∷ jobs) e at =
    (JobAt-stopped f g job (rw e at at.0), All-JobAt-stopped phase f g jobs e at.1)

-- A quiet step, or one that ends the call with nil, has not gone past the send on `ReadyCh`, or does
-- not go back.
pub HttpStep-Handed :
    {opts : ListenAndServeOptions} {done : Bool} {h h' : Http} {l : Label} (phase : Starter)
    (f : Option Err)
    → opts.ready_ch ≡ true
    → HttpStep opts done h l h'
    → l ≢ announces
    → Handed phase h.main f
    → Handed phase h'.main f
unfolding after_listen after_serve
HttpStep-Handed phase f ready (listen_fails e at) l i = ground arith
HttpStep-Handed phase f ready (listens at) l i = ground arith
HttpStep-Handed phase f ready (announce at) l i = ground arith
HttpStep-Handed phase f ready (shuts_down at d) l i = ground arith
HttpStep-Handed phase f ready (helper_ends at) l i = ground arith
HttpStep-Handed phase f ready (serve_ends e at shut) l i = ground arith
HttpStep-Handed phase f ready (finishes at ends) l i = ground arith

pub label-returned :
    {opts : ListenAndServeOptions} {done : Bool} {h h' : Http} {l : Label} (e : Err)
    → HttpStep opts done h l h'
    → h'.main ≡ returned (some e)
    → (h.main ≡ returned (some e)) ⊎ (l ≡ returns (some e))
unfolding after_listen after_serve label_of
label-returned e (listen_fails x at) r = ground arith
label-returned e (listens at) r = ground arith
label-returned e (announce at) r = ground arith
label-returned e (shuts_down at d) r = ground arith
label-returned e (helper_ends at) r = ground arith
label-returned e (serve_ends x at shut) r = ground arith
label-returned e (finishes at ends) r = ground arith

pub Ends-begun :
    {r : Option Err} {jobs jobs' : List Job} (phase : Starter) (f : Option Err)
    → Ends r jobs jobs'
    → (JobAt phase f running → JobAt phase f (ended r))
    → All (JobAt phase f) jobs
    → All (JobAt phase f) jobs'
Ends-begun phase f this keep at = (keep at.0, at.1)
Ends-begun phase f (other ends) keep at = (at.0, Ends-begun phase f ends keep at.1)

pub HttpStep-late :
    {opts : ListenAndServeOptions} {done : Bool} {h h' : Http} {l : Label}
    → HttpStep opts done h l h'
    → l ≡ announces
    → late h'.main ≡ true
unfolding label_of after_serve
HttpStep-late (listen_fails x at) e = ground arith
HttpStep-late (listens at) e = ground arith
HttpStep-late (announce at) e = refl
HttpStep-late (shuts_down at d) e = ground arith
HttpStep-late (helper_ends at) e = ground arith
HttpStep-late (serve_ends x at shut) e = ground arith
HttpStep-late (finishes at ends) e = ground arith

pub early_stop :
    (phase : Starter) (m : Main) (f : Option Err) (e : Err)
    → phase ≡ pending
    → Handed phase m f
    → Handed stopped m (some e)
early_stop phase m f e at h = ground arith
