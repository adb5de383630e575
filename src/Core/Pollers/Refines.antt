-- ===== src/Core/Pollers/Refines.antt =====
-- The group with its polling workflows does only what the group does where workflows may return at
-- any time, with any result.
use paperminer.Base.{
  ℕ, ◌≡◌, refl, sym, ap, subst, ◌⊎◌, inl, inr, Bool, Option, none, List, [], ◌∷◌, length,
}
use paperminer.Errors.{Err}
use paperminer.Httpsrv.{ListenAndServeOptions}
use paperminer.Core.Mux.{Receiver}
use paperminer.Core.Serve.{
  started, ErrGroup, System, initial_system, unstarted_jobs, Job, Ends, this, other, start_all,
  Step, http_ready, workflow_ends, Reach, at_start, later,
}
use paperminer.Core.Pollers.{
  Member, waiting, active, gone, jobs_of, start_members, receive_member, IsNotified, this_receives,
  other_receives, MemberStep, this_moves, other_moves, Returning, this_returns, other_returns,
  Whole, system_of, wait_all, initial_whole, WholeStep, group_moves, begins, loop_moves,
  poll_returns, WholeSteps, no_more, step_first, notified_first,
}

module _ {W : Type 0} where
  start_members-jobs_of :
      (ms : List (Member W)) → jobs_of (start_members ms) ≡ start_all (jobs_of ms)
  unfolding start_all
  start_members-jobs_of [] = refl
  start_members-jobs_of (waiting r ∷ ms) = rw (start_members-jobs_of ms) refl
  start_members-jobs_of (active r ∷ ms) = rw (start_members-jobs_of ms) refl
  start_members-jobs_of (gone r res ∷ ms) = rw (start_members-jobs_of ms) refl

  pub IsNotified-jobs_of : {ms ms' : List (Member W)} → IsNotified ms ms' → jobs_of ms' ≡ jobs_of ms
  unfolding receive_member
  IsNotified-jobs_of (this_receives {m = waiting r}) = refl
  IsNotified-jobs_of (this_receives {m = active r}) = refl
  IsNotified-jobs_of (this_receives {m = gone r res}) = refl
  IsNotified-jobs_of (other_receives n) = rw (IsNotified-jobs_of n) refl

  pub MemberStep-jobs_of :
      {done : Bool} {ms ms' : List (Member W)} → MemberStep done ms ms' → jobs_of ms' ≡ jobs_of ms
  MemberStep-jobs_of (this_moves r st) = refl
  MemberStep-jobs_of (other_moves st) = rw (MemberStep-jobs_of st) refl

  pub Returning-Ends :
      {done : Bool} {res : Option Err} {ms ms' : List (Member W)}
      → Returning done res ms ms'
      → Ends res (jobs_of ms) (jobs_of ms')
  Returning-Ends (this_returns r e at is) = this
  Returning-Ends (other_returns ret) = other (Returning-Ends ret)

  wait_all-jobs_of : (rs : List (Receiver W)) → jobs_of (wait_all rs) ≡ unstarted_jobs (length rs)
  unfolding unstarted_jobs
  wait_all-jobs_of [] = refl
  wait_all-jobs_of (r ∷ rs) = rw (wait_all-jobs_of rs) refl

abbrev with_jobs : {G : Type 0} → System G → List Job → System G
with_jobs t jobs = record t { jobs = jobs }

module _ {G W : Type 0} (eg : ErrGroup G) (opts : ListenAndServeOptions) where
  -- A step of the whole is none of the group, or one of its own.
  pub WholeStep-system_of :
      {w v : Whole G W}
      → WholeStep eg opts w v
      → (system_of v ≡ system_of w) ⊎ Step eg opts (system_of w) (system_of v)
  WholeStep-system_of {w} (group_moves {t = t} st same) =
      inr (subst (λ jobs. Step eg opts (system_of w) (with_jobs t jobs)) same st)
  WholeStep-system_of {w} (begins {h = h} st shows at) = inr (
      subst
        (λ jobs. Step eg opts (system_of w) (
          with_jobs
            (record {
              http = h;
              starter = started;
              jobs = jobs_of w.members;
              group = eg.report none w.group;
            })
            jobs))
        (sym (start_members-jobs_of w.members)) (http_ready st shows at))
  WholeStep-system_of {w} (loop_moves st) =
      inl (ap (with_jobs (system_of w)) (MemberStep-jobs_of st))
  WholeStep-system_of (poll_returns res ret) = inr (workflow_ends res (Returning-Ends ret))

  WholeSteps-Reach :
      {workflows n m : ℕ} {w v : Whole G W}
      → WholeSteps eg opts n m w v
      → Reach eg opts workflows (system_of w)
      → Reach eg opts workflows (system_of v)
  WholeSteps-Reach no_more r = r
  WholeSteps-Reach {workflows} (step_first st rest) r =
      WholeSteps-Reach rest (elim (WholeStep-system_of st) [
        | inl same ↦ subst (Reach eg opts workflows) (sym same) r
        | inr does ↦ later r does
      ])
  WholeSteps-Reach {workflows} {w} (notified_first is rest) r = WholeSteps-Reach rest (
      subst (λ jobs. Reach eg opts workflows (with_jobs (system_of w) jobs))
        (sym (IsNotified-jobs_of is)) r)

  -- Whatever the workflows poll, and whenever they are notified: a state of the whole is, seen from
  -- the group, one that the group reaches with workflows that may return anything at any time.
  pub whole_refines :
      (rs : List (Receiver W)) (n m : ℕ) (w : Whole G W)
      → WholeSteps eg opts n m (initial_whole eg rs) w
      → Reach eg opts (length rs) (system_of w)
  unfolding initial_whole initial_system
  whole_refines rs n m w steps = WholeSteps-Reach steps (
      subst (λ jobs. Reach eg opts (length rs) (with_jobs (initial_system eg (length rs)) jobs))
        (sym (wait_all-jobs_of rs)) at_start)
