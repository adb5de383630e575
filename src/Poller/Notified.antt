-- ===== src/Poller/Notified.antt =====
-- Notifications of internal/cataloger/workflow.go and the loop of internal/poller/poller.go.
use paperminer.Base.{ℕ, suc, ◌+◌, ◌≤◌, ◌<◌, ◌≡◌, refl, arith, ◌⊎◌, inl, inr, true, false, ℤ}
use paperminer.Errors.{Err}
use paperminer.Poller.{Options}
use paperminer.Poller.Channel.{
  Position, at_head, choosing, sleeping, back, Looping, notify_post_consume, again, call_poll,
  sleep, OtherStep, notifies, cancels, LoopStep, polls, ends, goes_on, waits, is_interrupted,
  times_out, is_notified, Run, nothing, other_step, loop_step,
}

-- The steps that the loop may take before it heeds a message.
abbrev to_go : Position → ℕ
to_go at_head = 2
to_go choosing = 1
to_go sleeping = 1
to_go (back e) = 0

abbrev pub HasReturned : {W : Type 0} → Looping W → Type 0
HasReturned s = (e : Err) × (s.position ≡ back e)

-- After k steps of the loop since a message was there, in its b-th iteration: another iteration has
-- begun, or the loop has returned, or the message is still there and will be heeded soon.
abbrev IsHeeded : {W : Type 0} → ℕ → ℕ → Looping W → Type 0
IsHeeded b k s =
    (b < s.begun)
    ⊎ (HasReturned s ⊎ ((s.begun ≡ b) × (s.pending ≡ true) × (k + to_go s.position ≤ 2)))

OtherStep-IsHeeded :
    {W : Type 0} (b k : ℕ) (s t : Looping W) → OtherStep s t → IsHeeded b k s → IsHeeded b k t
unfolding notify_post_consume
OtherStep-IsHeeded b k s t notifies i = ground arith
OtherStep-IsHeeded b k s t (cancels e not) i = ground arith

module _ {W : Type 0} (call : W → W) (next : W → ℤ) (o : Options W) where
  LoopStep-IsHeeded :
      (b k : ℕ) (s t : Looping W) → LoopStep call next o s t → IsHeeded b k s → IsHeeded b (suc k) t
  unfolding again call_poll sleep
  LoopStep-IsHeeded b k s t (polls at) i = ground arith
  LoopStep-IsHeeded b k s t (ends e at c) i = inr (inl (e, refl))
  LoopStep-IsHeeded b k s t (goes_on at c) i = ground arith
  LoopStep-IsHeeded b k s t (waits random at c empty) i = ground arith
  LoopStep-IsHeeded b k s t (is_interrupted e at c) i = inr (inl (_, refl))
  LoopStep-IsHeeded b k s t (times_out at) i = ground arith
  LoopStep-IsHeeded b k s t (is_notified at c) i = ground arith

  Run-IsHeeded :
      (s : Looping W) (k : ℕ) (t : Looping W)
      → s.pending ≡ true
      → Run call next o s k t
      → IsHeeded s.begun k t
  Run-IsHeeded s k t there nothing = start s.position refl
    where
      start : (p : Position) → s.position ≡ p → IsHeeded s.begun 0 s
      start at_head e = inr (inr (refl, there, rw e (omega arith)))
      start choosing e = inr (inr (refl, there, rw e (omega arith)))
      start sleeping e = inr (inr (refl, there, rw e (omega arith)))
      start (back x) e = inr (inl (x, e))
  Run-IsHeeded s k t there (other_step {t = u} run st) =
      OtherStep-IsHeeded s.begun k u t st (Run-IsHeeded s k u there run)
  Run-IsHeeded s k t there (loop_step {k = m} {t = u} run st) =
      LoopStep-IsHeeded s.begun m u t st (Run-IsHeeded s m u there run)

  -- The loop can go on without its timer.
  abbrev pub CanGoOn : Looping W → Type 0
  CanGoOn s =
      (t : Looping W) × LoopStep call next o s t × (s.position ≡ sleeping → t.pending ≡ false)

  can_go_on :
      (s : Looping W)
      → s.pending ≡ true
      → (p : Position) → s.position ≡ p
      → HasReturned s ⊎ ((0 < to_go s.position) × CanGoOn s)
  unfolding again
  can_go_on s there at_head e = inr (rw e (omega arith), (_, polls e, λ x. absurd (cc)))
  can_go_on s there choosing e = inr (rw e (omega arith), (_, goes_on e there, λ x. absurd (cc)))
  can_go_on s there sleeping e = inr (rw e (omega arith), (_, is_notified e there, λ x. refl))
  can_go_on s there (back x) e = inl (x, e)

  -- No notification is lost: with a message in the channel, whatever others do in between, within
  -- two steps of its own the loop has begun another iteration or returned, and until then it can go
  -- on, out of a sleep by the message and not by the timer.
  pub notified_polls :
      (k : ℕ) (s t : Looping W)
      → s.pending ≡ true
      → Run call next o s k t
      → (s.begun < t.begun) ⊎ (HasReturned t ⊎ ((k < 2) × CanGoOn t))
  notified_polls k s t there run = elim (Run-IsHeeded s k t there run) [
    | inl more ↦ inl more
    | inr (inl ended) ↦ inr (inl ended)
    | inr (inr (same, still, few)) ↦ elim (can_go_on t still t.position refl) [
      | inl ended ↦ inr (inl ended)
      | inr (left, can) ↦ inr (inr (omega arith, can))
    ]
  ]
