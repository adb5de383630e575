-- ===== src/Core/Pollers.antt =====
-- The goroutines of internal/core/program.go with the workflows as they are: each runs the loop of
-- internal/poller/poller.go with the context of the group, and may be notified. What the loops
-- share besides the context, as the database, is left out.
pub mod Refines
pub mod Ends
pub mod Well
use paperminer.Base.{ℕ, zero, suc, Bool, ◌≡◌, Option, none, some, List, [], ◌∷◌, if◌then◌else◌}
use paperminer.Errors.{Err, sentinel, canceled}
use paperminer.Io.{Result, ok, err}
use paperminer.Poller.{without_canceled}
use paperminer.Poller.Channel.{Position, back, Looping, enter, LoopStep}
use paperminer.Httpsrv.{ListenAndServeOptions, Http, initial, Label, announces, HttpStep}
use paperminer.Core.Mux.{Receiver, receive}
use paperminer.Core.Serve.{
  Starter, pending, started, Job, unstarted, running, ended, ErrGroup, System, Step,
}

-- A workflow before its `Run` is called, while it runs, and with what it has returned.
pub data Member (W : Type 0) : Type 0 where
  waiting active : Receiver W → Member W
  gone : Receiver W → Option Err → Member W

-- `ctx.Err()` of the context of the group, which is not done by a deadline.
abbrev pub ctx_err_of : Bool → Option Err
ctx_err_of done = if done then some (sentinel canceled) else none

abbrev nil_or_error : Result (Unit {0}) → Option Err
nil_or_error (ok u) = none
nil_or_error (err e) = some e

-- What `Poll` returns when its loop has returned e.
unfoldable pub poll_result : Bool → Err → Option Err
unfolding without_canceled
poll_result done e = nil_or_error (without_canceled e (ctx_err_of done))

module _ {W : Type 0} where
  abbrev pub job_of : Member W → Job
  job_of (waiting r) = unstarted
  job_of (active r) = running
  job_of (gone r res) = ended res

  abbrev pub jobs_of : List (Member W) → List Job
  jobs_of [] = []
  jobs_of (m ∷ ms) = job_of m ∷ jobs_of ms

  abbrev pub start_member : Member W → Member W
  start_member (waiting r) = active r
  start_member (active r) = active r
  start_member (gone r res) = active r

  abbrev pub start_members : List (Member W) → List (Member W)
  start_members [] = []
  start_members (m ∷ ms) = start_member m ∷ start_members ms

  abbrev pub with_ctx : Bool → Looping W → Looping W
  with_ctx done l = record l { ctx_err = ctx_err_of done }

  -- `NotifyPostConsume` of one workflow.
  unfoldable pub receive_member : Member W → Member W
  unfolding receive
  receive_member (waiting r) = waiting (receive r)
  receive_member (active r) = active (receive r)
  receive_member (gone r res) = gone (receive r) res

  pub data IsNotified : List (Member W) → List (Member W) → Type 0 where
    this_receives :
        {m : Member W} {ms : List (Member W)} → IsNotified (m ∷ ms) (receive_member m ∷ ms)
    other_receives :
        {m : Member W} {ms ms' : List (Member W)}
        → IsNotified ms ms'
        → IsNotified (m ∷ ms) (m ∷ ms')

  -- One of the loops makes a step.
  pub data MemberStep (done : Bool) : List (Member W) → List (Member W) → Type 0 where
    this_moves :
        {ms : List (Member W)} (r : Receiver W) {l : Looping W}
        → LoopStep r.call r.next r.options (with_ctx done r.loop) l
        → MemberStep done (active r ∷ ms) (active (record r { loop = l }) ∷ ms)
    other_moves :
        {m : Member W} {ms ms' : List (Member W)}
        → MemberStep done ms ms'
        → MemberStep done (m ∷ ms) (m ∷ ms')

  -- One of the loops has returned, and `Poll` returns.
  pub data Returning (done : Bool) (res : Option Err)
      : List (Member W) → List (Member W) → Type 0 where
    this_returns :
        {ms : List (Member W)} (r : Receiver W) (e : Err)
        → r.loop.position ≡ back e
        → res ≡ poll_result done e
        → Returning done res (active r ∷ ms) (gone r res ∷ ms)
    other_returns :
        {m : Member W} {ms ms' : List (Member W)}
        → Returning done res ms ms'
        → Returning done res (m ∷ ms) (m ∷ ms')

pub record Whole (G W : Type 0) : Type 0 where
  pub http : Http
  pub starter : Starter
  pub members : List (Member W)
  pub group : G

-- The group as `Core.Serve` has it, where a workflow may return anything at any time.
abbrev pub system_of : {G W : Type 0} → Whole G W → System G
system_of w = record {
  http = w.http;
  starter = w.starter;
  jobs = jobs_of w.members;
  group = w.group;
}

-- The workflows that were created, each with its loop at its beginning.
abbrev pub wait_all : {W : Type 0} → List (Receiver W) → List (Member W)
wait_all [] = []
wait_all (r ∷ rs) = waiting (record r { loop = enter r.loop.state }) ∷ wait_all rs

unfoldable pub initial_whole : {G W : Type 0} → ErrGroup G → List (Receiver W) → Whole G W
unfolding initial enter
initial_whole eg rs = record {
  http = initial;
  starter = pending;
  members = wait_all rs;
  group = eg.with_context;
}

module _ {G W : Type 0} (eg : ErrGroup G) (opts : ListenAndServeOptions) where
  pub data WholeStep (w : Whole G W) : Whole G W → Type 0 where
    group_moves :
        {t : System G}
        → Step eg opts (system_of w) t
        → t.jobs ≡ jobs_of w.members
        → WholeStep w
            (record { http = t.http; starter = t.starter; members = w.members; group = t.group })
    begins :
        {l : Label} {h : Http}
        → HttpStep opts (eg.ctx_done w.group) w.http l h
        → l ≡ announces
        → w.starter ≡ pending
        → WholeStep w (record {
          http = h;
          starter = started;
          members = start_members w.members;
          group = eg.report none w.group;
        })
    loop_moves :
        {ms : List (Member W)}
        → MemberStep (eg.ctx_done w.group) w.members ms
        → WholeStep w (record w { members = ms })
    poll_returns :
        (res : Option Err) {ms : List (Member W)}
        → Returning (eg.ctx_done w.group) res w.members ms
        → WholeStep w (record w { members = ms; group = eg.report res w.group })

  -- `WholeSteps n m s t`: n steps and m notifications lead from s to t.
  pub data WholeSteps : ℕ → ℕ → Whole G W → Whole G W → Type 0 where
    no_more : {w : Whole G W} → WholeSteps zero zero w w
    step_first :
        {n m : ℕ} {w v u : Whole G W}
        → WholeStep w v
        → WholeSteps n m v u
        → WholeSteps (suc n) m w u
    notified_first :
        {n m : ℕ} {w u : Whole G W} {ms : List (Member W)}
        → IsNotified w.members ms
        → WholeSteps n m (record w { members = ms }) u
        → WholeSteps n (suc m) w u
