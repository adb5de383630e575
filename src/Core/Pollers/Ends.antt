-- ===== src/Core/Pollers/Ends.antt =====
-- How the group with its polling workflows comes to its end.
use paperminer.Base.{
  ℕ, ◌+◌, ◌*◌, ◌≤◌, ◌<◌, ◌≡◌, refl, sym, ap, subst, ◌∙◌, ◌⊎◌, inl, inr, arith, Bool, true, false,
  Option, List, [], ◌∷◌, Bool-cases, String,
}
use paperminer.Errors.{Err, sentinel, canceled}
use paperminer.Httpsrv.{ListenAndServeOptions}
use paperminer.Poller.Channel.{notify_post_consume}
use paperminer.Poller.Stops.{steps_left, LoopStep-steps_left, canceled_can_go}
use paperminer.Core.Mux.{Receiver, receive}
use paperminer.Core.Serve.{
  http_options, ErrGroup, IsErrGroup, started, System, Job, unstarted, running, ended, Ends, this,
  other, Step, cancel, http_moves, http_returns, http_ready, starter_stops, workflow_ends,
  any_running, IsOver,
}
use paperminer.Core.Serve.Left.{jobs_left, not_at_send}
use paperminer.Core.Serve.Invariant.{IsSystem, Step-IsSystem, Reach-IsSystem}
use paperminer.Core.Serve.Outcome.{
  system_left, Step-system_left, Stays, Step-Stays, canceled-CanStep,
}
use paperminer.Core.Pollers.{
  Member, waiting, active, gone, jobs_of, with_ctx, receive_member, IsNotified, this_receives,
  other_receives, MemberStep, this_moves, other_moves, Returning, this_returns, other_returns,
  Whole, system_of, initial_whole, WholeStep, group_moves, begins, loop_moves, poll_returns,
  WholeSteps, no_more, step_first, notified_first,
}
use paperminer.Core.Pollers.Refines.{
  IsNotified-jobs_of, MemberStep-jobs_of, Returning-Ends, WholeStep-system_of, whole_refines,
}

module _ {W : Type 0} where
  unfoldable pub member_left : Member W → ℕ
  member_left (waiting r) = 0
  member_left (active r) = steps_left r.loop
  member_left (gone r res) = 0

  unfoldable pub members_left : List (Member W) → ℕ
  unfolding member_left
  members_left [] = 0
  members_left (m ∷ ms) = member_left m + members_left ms

  canceled-MemberStep :
      {ms ms' : List (Member W)} → MemberStep true ms ms' → members_left ms' < members_left ms
  unfolding members_left
  canceled-MemberStep (this_moves r {l = l} st) =
      let (still, fewer, _) =
        LoopStep-steps_left r.call r.next r.options (sentinel canceled) (with_ctx true r.loop) l st
          refl in
      omega arith
  canceled-MemberStep (other_moves st) = omega (arith, canceled-MemberStep st)

  Returning-members_left :
      {done : Bool} {res : Option Err} {ms ms' : List (Member W)}
      → Returning done res ms ms'
      → members_left ms' ≤ members_left ms
  unfolding members_left
  Returning-members_left (this_returns r e at is) = omega arith
  Returning-members_left (other_returns ret) = omega (arith, Returning-members_left ret)

  receive_member-left : (m : Member W) → member_left (receive_member m) ≤ member_left m + 2
  unfolding member_left receive_member receive notify_post_consume
  receive_member-left (waiting r) = omega arith
  receive_member-left (active r) = ground arith
  receive_member-left (gone r res) = omega arith

  IsNotified-members_left :
      {ms ms' : List (Member W)} → IsNotified ms ms' → members_left ms' ≤ members_left ms + 2
  unfolding members_left
  IsNotified-members_left (this_receives {m = m}) = omega (arith, receive_member-left m)
  IsNotified-members_left (other_receives n) = omega (arith, IsNotified-members_left n)

  -- Of the loops that run, one can make a step, or has returned.
  canceled-running :
      (ms : List (Member W))
      → any_running (jobs_of ms) ≡ true
      → ((ms' : List (Member W)) × MemberStep true ms ms')
        ⊎ ((res : Option Err) × (ms' : List (Member W)) × Returning true res ms ms')
  unfolding any_running
  canceled-running [] h = absurd (cc h)
  canceled-running (waiting r ∷ ms) h = elim (canceled-running ms h) [
    | inl (ms', st) ↦ inl (_, other_moves st)
    | inr (res, ms', ret) ↦ inr (res, _, other_returns ret)
  ]
  canceled-running (gone r x ∷ ms) h = elim (canceled-running ms h) [
    | inl (ms', st) ↦ inl (_, other_moves st)
    | inr (res, ms', ret) ↦ inr (res, _, other_returns ret)
  ]
  canceled-running (active r ∷ ms) h =
      let l = with_ctx true r.loop in
      elim (canceled_can_go r.call r.next r.options (sentinel canceled) l l.position refl refl) [
        | inl (e, at) ↦ inr (_, _, this_returns r e at refl)
        | inr (l', st) ↦ inl (_, this_moves r st)
      ]

Ends-any_running : {r : Option Err} {js js' : List Job} → Ends r js js' → any_running js ≡ true
unfolding any_running
Ends-any_running this = refl
Ends-any_running (other {job = unstarted} e) = Ends-any_running e
Ends-any_running (other {job = running} e) = refl
Ends-any_running (other {job = ended x} e) = Ends-any_running e

still-jobs :
    {G : Type 0} {eg : ErrGroup G} {opts : ListenAndServeOptions} {s t : System G}
    → Step eg opts s t
    → any_running s.jobs ≡ false
    → s.starter ≡ started
    → t.jobs ≡ s.jobs
still-jobs (cancel open_before) still begun = refl
still-jobs (http_moves st quiet) still begun = refl
still-jobs (http_returns r st ends) still begun = refl
still-jobs (http_ready st shows at) still begun = absurd (cc)
still-jobs (starter_stops at done) still begun = refl
still-jobs (workflow_ends r ends) still begun = absurd (cc (Ends-any_running ends))

module _ {G W : Type 0} (eg : ErrGroup G) where
  unfoldable pub whole_left : Whole G W → ℕ
  unfolding members_left system_left
  whole_left w = system_left eg (system_of w) + members_left w.members

-- Any step at all.
abbrev pub CanGoOn : {G W : Type 0} → ErrGroup G → ListenAndServeOptions → Whole G W → Type 0
CanGoOn {G} {W} eg opts w = (v : Whole G W) × WholeStep eg opts w v

module _ {G W : Type 0} (eg : ErrGroup G) (documented : IsErrGroup eg)
    (opts : ListenAndServeOptions) (ready : opts.ready_ch ≡ true) where
  -- The workflows are started and the context is done.
  abbrev IsEnding : Whole G W → Type 0
  IsEnding w = IsSystem eg (system_of w) × (w.starter ≡ started) × (eg.ctx_done w.group ≡ true)

  WholeStep-whole_left :
      {w v : Whole G W} → WholeStep eg opts w v → IsEnding w → whole_left eg v < whole_left eg w
  unfolding whole_left
  WholeStep-whole_left {w} (group_moves {t = t} st same) (i, begun, done) =
      omega (arith, Step-system_left eg documented st i, ap jobs_left same)
  WholeStep-whole_left (begins st shows at) (i, begun, done) = absurd (cc)
  WholeStep-whole_left {w} (loop_moves {ms = ms} st) (i, begun, done) = omega (
    arith,
    canceled-MemberStep (subst (λ d. MemberStep d w.members ms) done st),
    ap jobs_left (MemberStep-jobs_of st),
  )
  WholeStep-whole_left {w} (poll_returns res {ms = ms} ret) (i, begun, done) =
      let after = record (system_of w) { jobs = jobs_of ms; group = eg.report res w.group } in
      let st : Step eg opts (system_of w) after = workflow_ends res (Returning-Ends ret) in
      omega (arith, Step-system_left eg documented st i, Returning-members_left ret)

  WholeStep-IsEnding : {w v : Whole G W} → WholeStep eg opts w v → IsEnding w → IsEnding v
  unfolding Stays
  WholeStep-IsEnding {w} {v} st (i, begun, done) = elim (WholeStep-system_of eg opts st) [
    | inl same ↦ (
      subst (IsSystem eg) (sym same) i,
      ap (λ (s : System G). s.starter) same ∙ begun,
      ap (λ (s : System G). eg.ctx_done s.group) same ∙ done,
    )
    | inr does ↦
        let (still, kept) = Step-Stays eg documented does in
        (Step-IsSystem eg documented ready does i, kept (λ e. absurd (cc)) ∙ begun, still done)
  ]

  IsNotified-IsEnding :
      {w : Whole G W} {ms : List (Member W)}
      → IsNotified w.members ms
      → IsEnding w
      → IsEnding (record w { members = ms })
  IsNotified-IsEnding {w} is (i, begun, done) = (
    subst (λ jobs. IsSystem eg (record (system_of w) { jobs = jobs })) (sym (IsNotified-jobs_of is))
        i,
    begun,
    done,
  )

  IsNotified-whole_left :
      (w : Whole G W) {ms : List (Member W)}
      → IsNotified w.members ms
      → whole_left eg (record w { members = ms }) ≤ whole_left eg w + 2
  unfolding whole_left
  IsNotified-whole_left w is =
      omega (arith, IsNotified-members_left is, ap jobs_left (IsNotified-jobs_of is))

  WholeSteps-whole_left :
      {n m : ℕ} {w v : Whole G W}
      → WholeSteps eg opts n m w v
      → IsEnding w
      → IsEnding v × (n + whole_left eg v ≤ whole_left eg w + 2 * m)
  WholeSteps-whole_left no_more e = (e, omega arith)
  WholeSteps-whole_left (step_first st rest) e =
      let (after, few) = WholeSteps-whole_left rest (WholeStep-IsEnding st e) in
      let less = WholeStep-whole_left st e in (after, omega arith)
  WholeSteps-whole_left {w = w} (notified_first is rest) e =
      let (after, few) = WholeSteps-whole_left rest (IsNotified-IsEnding is e) in
      let more = IsNotified-whole_left w is in (after, omega arith)

  IsEnding-CanGoOn : (w : Whole G W) → IsEnding w → IsOver (system_of w) ⊎ CanGoOn eg opts w
  IsEnding-CanGoOn w (i, begun, done) = elim (Bool-cases (any_running (jobs_of w.members))) [
    | inl runs ↦ elim (canceled-running w.members runs) [
      | inl (ms, st) ↦ inr (_, loop_moves (subst (λ d. MemberStep d w.members ms) (sym done) st))
      | inr (res, ms, ret) ↦
          inr (_, poll_returns res (subst (λ d. Returning d res w.members ms) (sym done) ret))
    ]
    | inr still ↦ elim (canceled-CanStep eg {opts = opts} (system_of w) i done (λ e. absurd (cc))) [
      | inl over ↦ inl over
      | inr (inl (t, st)) ↦ inr (_, group_moves st (still-jobs st still begun))
      | inr (inr at) ↦ absurd (not_at_send w.starter _ w.http.main begun i.handed at)
    ]
  ]

module _ {G W : Type 0} (eg : ErrGroup G) (documented : IsErrGroup eg) where
  -- Once the workflows, each running the loop of its poller, are started and the context is done, the
  -- program comes to its end: whatever happens in whatever order, the steps that follow are at most
  -- those that are left, and two more for each notification that still comes, and as long as not all
  -- goroutines have returned one of them can go on.
  pub pollers_end :
      (address : String) (rs : List (Receiver W)) (n m k l : ℕ) (w v : Whole G W)
      → WholeSteps eg (http_options address) n m (initial_whole eg rs) w
      → w.starter ≡ started
      → eg.ctx_done w.group ≡ true
      → WholeSteps eg (http_options address) k l w v
      → (k + whole_left eg v ≤ whole_left eg w + 2 * l)
        × (IsOver (system_of v) ⊎ CanGoOn eg (http_options address) v)
  unfolding http_options
  pollers_end address rs n m k l w v reached begun done steps =
      let opts = http_options address in
      let i = Reach-IsSystem eg documented refl (whole_refines eg opts rs n m w reached) in
      let (ending, few) = WholeSteps-whole_left eg documented opts refl steps (i, begun, done) in
      (few, IsEnding-CanGoOn eg documented opts refl v ending)
