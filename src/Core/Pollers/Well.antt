-- ===== src/Core/Pollers/Well.antt =====
-- What the polling workflows return to the group.
use paperminer.Base.{
  ℕ, ◌≡◌, refl, sym, ap, subst, ◌∙◌, inl, inr, Bool, true, false, Option, none, some, List, [], ◌∷◌,
  String, All, ℤ, pos, ltb_ℤ, Bool-cases,
}
use paperminer.Errors.{Err, sentinel, canceled, is_error}
use paperminer.Httpsrv.{ListenAndServeOptions}
use paperminer.Poller.{Options, next_delay, without_canceled}
use paperminer.Poller.Channel.{
  Position, at_head, choosing, sleeping, back, Looping, again, call_poll, sleep, LoopStep, polls,
  ends, goes_on, waits, is_interrupted, times_out, is_notified, enter,
}
use paperminer.Core.Mux.{Receiver, receive}
use paperminer.Core.Serve.{
  http_options, ErrGroup, IsErrGroup, started, unstarted, any_running, IsOver,
}
use paperminer.Core.Serve.Parts.{JobAt}
use paperminer.Core.Serve.Invariant.{IsSystem, Step-IsSystem, Reach-IsSystem}
use paperminer.Core.Serve.Left.{none_started}
use paperminer.Core.Serve.Outcome.{Stays, Step-Stays}
use paperminer.Core.Pollers.{
  Member, waiting, active, gone, ctx_err_of, jobs_of, with_ctx, receive_member, IsNotified,
  this_receives, other_receives, MemberStep, this_moves, other_moves, Returning, this_returns,
  other_returns, poll_result, Whole, system_of, wait_all, initial_whole, start_members, WholeStep,
  group_moves, begins, loop_moves, poll_returns, WholeSteps, no_more, step_first, notified_first,
}
use paperminer.Core.Pollers.Refines.{IsNotified-jobs_of, WholeStep-system_of, whole_refines}

-- A loop returns only once the context is done, with its error.
abbrev EndsAt : Bool → Position → Type 0
EndsAt done at_head = Unit
EndsAt done choosing = Unit
EndsAt done sleeping = Unit
EndsAt done (back e) = (is_error e canceled ≡ true) × (done ≡ true)

ctx_err-EndsAt : (done : Bool) (e : Err) → ctx_err_of done ≡ some e → EndsAt done (back e)
ctx_err-EndsAt true e h =
    let same : sentinel canceled ≡ e = cc h in
    (subst (λ x. is_error x canceled ≡ true) same refl, refl)
ctx_err-EndsAt false e h = absurd (cc h)

later-EndsAt : (d d' : Bool) (p : Position) → (d ≡ true → d' ≡ true) → EndsAt d p → EndsAt d' p
later-EndsAt d d' at_head later h = tt
later-EndsAt d d' choosing later h = tt
later-EndsAt d d' sleeping later h = tt
later-EndsAt d d' (back e) later h = (h.0, later h.1)

poll_result-none : (done : Bool) (e : Err) → EndsAt done (back e) → poll_result done e ≡ none
unfolding poll_result without_canceled
poll_result-none done e h = rw h.1 (rw h.0 refl)

module _ {W : Type 0} where
  LoopStep-EndsAt :
      (call : W → W) (next : W → ℤ) (o : Options W) (done : Bool) (l : Looping W) {l' : Looping W}
      → LoopStep call next o (with_ctx done l) l'
      → EndsAt done l'.position
  unfolding again call_poll sleep
  LoopStep-EndsAt call next o done l (polls at) = tt
  LoopStep-EndsAt call next o done l (ends e at c) = ctx_err-EndsAt done e c
  LoopStep-EndsAt call next o done l (goes_on at c) = tt
  LoopStep-EndsAt call next o done l (waits random at c empty) =
      elim (Bool-cases (ltb_ℤ (pos 0) (next_delay o (next l.state) random))) [
        | inl positive ↦ rw positive tt
        | inr not_positive ↦ rw not_positive tt
      ]
  LoopStep-EndsAt call next o done l (is_interrupted e at c) = ctx_err-EndsAt done e c
  LoopStep-EndsAt call next o done l (times_out at) = tt
  LoopStep-EndsAt call next o done l (is_notified at c) = tt

  abbrev WellMember : Bool → Member W → Type 0
  WellMember done (waiting r) = EndsAt done r.loop.position
  WellMember done (active r) = EndsAt done r.loop.position
  WellMember done (gone r res) = res ≡ none

  start_members-WellMember :
      (done : Bool) (ms : List (Member W))
      → All (WellMember done) ms
      → All (λ job. job ≡ unstarted) (jobs_of ms)
      → All (WellMember done) (start_members ms)
  start_members-WellMember done [] h none_runs = tt
  start_members-WellMember done (waiting r ∷ ms) h none_runs =
      (h.0, start_members-WellMember done ms h.1 none_runs.1)
  start_members-WellMember done (active r ∷ ms) h none_runs =
      (h.0, start_members-WellMember done ms h.1 none_runs.1)
  start_members-WellMember done (gone r res ∷ ms) h none_runs = absurd (cc (none_runs.0))

  receive_member-WellMember :
      (done : Bool) (m : Member W) → WellMember done m → WellMember done (receive_member m)
  unfolding receive_member receive
  receive_member-WellMember done (waiting r) h = h
  receive_member-WellMember done (active r) h = h
  receive_member-WellMember done (gone r res) h = h

  IsNotified-WellMember :
      (done : Bool) {ms ms' : List (Member W)}
      → IsNotified ms ms'
      → All (WellMember done) ms
      → All (WellMember done) ms'
  IsNotified-WellMember done (this_receives {m = m}) h = (receive_member-WellMember done m h.0, h.1)
  IsNotified-WellMember done (other_receives n) h = (h.0, IsNotified-WellMember done n h.1)

  MemberStep-WellMember :
      {done : Bool} {ms ms' : List (Member W)}
      → MemberStep done ms ms'
      → All (WellMember done) ms
      → All (WellMember done) ms'
  MemberStep-WellMember {done} (this_moves r st) h =
      (LoopStep-EndsAt r.call r.next r.options done r.loop st, h.1)
  MemberStep-WellMember (other_moves st) h = (h.0, MemberStep-WellMember st h.1)

  Returning-WellMember :
      {done : Bool} {res : Option Err} {ms ms' : List (Member W)}
      → Returning done res ms ms'
      → All (WellMember done) ms
      → (res ≡ none) × All (WellMember done) ms'
  Returning-WellMember {done} (this_returns r e at is) h =
      let well = is ∙ poll_result-none done e (subst (EndsAt done) at h.0) in (well, (well, h.1))
  Returning-WellMember (other_returns ret) h =
      let (well, rest) = Returning-WellMember ret h.1 in (well, (h.0, rest))

  done-WellMember :
      (d d' : Bool) (ms : List (Member W))
      → (d ≡ true → d' ≡ true)
      → All (WellMember d) ms
      → All (WellMember d') ms
  done-WellMember d d' [] later h = tt
  done-WellMember d d' (waiting r ∷ ms) later h =
      (later-EndsAt d d' r.loop.position later h.0, done-WellMember d d' ms later h.1)
  done-WellMember d d' (active r ∷ ms) later h =
      (later-EndsAt d d' r.loop.position later h.0, done-WellMember d d' ms later h.1)
  done-WellMember d d' (gone r res ∷ ms) later h = (h.0, done-WellMember d d' ms later h.1)

  wait_all-WellMember : (done : Bool) (rs : List (Receiver W)) → All (WellMember done) (wait_all rs)
  unfolding enter
  wait_all-WellMember done [] = tt
  wait_all-WellMember done (r ∷ rs) = (tt, wait_all-WellMember done rs)

  -- `Run` of the workflow has returned nil.
  abbrev pub HasReturnedNil : Member W → Type 0
  HasReturnedNil m = (r : Receiver W) × (m ≡ gone r none)

  each_returned_nil :
      (done : Bool) (f : Option Err) (ms : List (Member W))
      → any_running (jobs_of ms) ≡ false
      → All (JobAt started f) (jobs_of ms)
      → All (WellMember done) ms
      → All HasReturnedNil ms
  unfolding any_running
  each_returned_nil done f [] still at h = tt
  each_returned_nil done f (waiting r ∷ ms) still at h = absurd (at.0 refl)
  each_returned_nil done f (active r ∷ ms) still at h = absurd (cc still)
  each_returned_nil done f (gone r res ∷ ms) still at h =
      ((r, ap (gone r) h.0), each_returned_nil done f ms still at.1 h.1)

module _ {G W : Type 0} (eg : ErrGroup G) (documented : IsErrGroup eg)
    (opts : ListenAndServeOptions) (ready : opts.ready_ch ≡ true) where
  IsWell : Whole G W → Type 0
  IsWell w = IsSystem eg (system_of w) × All (WellMember (eg.ctx_done w.group)) w.members

  WholeStep-IsWell : {w v : Whole G W} → WholeStep eg opts w v → IsWell w → IsWell v
  unfolding IsWell Stays
  WholeStep-IsWell {w} {v} st (i, h) = (
    elim (WholeStep-system_of eg opts st) [
      | inl same ↦ subst (IsSystem eg) (sym same) i
      | inr does ↦ Step-IsSystem eg documented ready does i
    ],
    members_well st,
  )
    where
      members_well :
          {v : Whole G W} → WholeStep eg opts w v → All (WellMember (eg.ctx_done v.group)) v.members
      members_well (group_moves {t = t} st same) =
          done-WellMember _ (eg.ctx_done t.group) w.members (Step-Stays eg documented st).0 h
      members_well (begins st shows at) =
          subst (λ g. All (WellMember (eg.ctx_done g)) (start_members w.members))
            (sym (documented.nil_is_nothing w.group))
            (start_members-WellMember _ w.members h
              (none_started w.starter _ (jobs_of w.members) at i.begun))
      members_well (loop_moves st) = MemberStep-WellMember st h
      members_well (poll_returns res {ms = ms} ret) =
          let (nil, rest) = Returning-WellMember ret h in
          let same = ap (λ r. eg.report r w.group) nil ∙ documented.nil_is_nothing w.group in
          subst (λ g. All (WellMember (eg.ctx_done g)) ms) (sym same) rest

  WholeSteps-IsWell : {n m : ℕ} {w v : Whole G W} → WholeSteps eg opts n m w v → IsWell w → IsWell v
  unfolding IsWell
  WholeSteps-IsWell no_more h = h
  WholeSteps-IsWell (step_first st rest) h = WholeSteps-IsWell rest (WholeStep-IsWell st h)
  WholeSteps-IsWell {w = w} (notified_first is rest) (i, h) = WholeSteps-IsWell rest (
    subst (λ jobs. IsSystem eg (record (system_of w) { jobs = jobs })) (sym (IsNotified-jobs_of is))
        i,
    IsNotified-WellMember (eg.ctx_done w.group) is h,
  )

module _ {G W : Type 0} (eg : ErrGroup G) (documented : IsErrGroup eg) where
  -- A polling workflow gives the group no error: when all goroutines have returned and the workflows
  -- were started, each has returned nil, whatever the server did and whenever the context ended.
  pub pollers_return_nil :
      (address : String) (rs : List (Receiver W)) (n m : ℕ) (w : Whole G W)
      → WholeSteps eg (http_options address) n m (initial_whole eg rs) w
      → w.starter ≡ started
      → IsOver (system_of w)
      → All HasReturnedNil w.members
  unfolding http_options initial_whole IsWell
  pollers_return_nil address rs n m w steps begun (main_ended, not, still) =
      let opts = http_options address in
      let first = Reach-IsSystem eg documented refl (whole_refines eg opts rs 0 0 _ no_more) in
      let (i, h) =
        WholeSteps-IsWell eg documented opts refl steps (first, wait_all-WellMember _ rs) in
      each_returned_nil _ (eg.failure w.group) w.members still
        (subst (λ p. All (JobAt p (eg.failure w.group)) (jobs_of w.members)) begun i.begun) h
