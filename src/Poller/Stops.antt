-- ===== src/Poller/Stops.antt =====
-- The end of the loop of internal/poller/poller.go once its context is done. A `select` takes any
-- channel that is ready, so that the loop may take a message, or its timer, before the context.
use paperminer.Base.{
  ℕ, zero, suc, ◌+◌, ◌≤◌, ◌<◌, ◌≡◌, refl, subst, arith, ◌⊎◌, inl, inr, ℤ, some, if◌then◌else◌,
}
use paperminer.Errors.{Err, wrap}
use paperminer.Poller.{Options}
use paperminer.Poller.Channel.{
  Position, at_head, choosing, sleeping, back, Looping, again, call_poll, sleep, LoopStep, polls,
  ends, goes_on, waits, is_interrupted, times_out, is_notified,
}

-- The steps that are left when no more messages come.
abbrev position_left : Position → ℕ
position_left at_head = 2
position_left choosing = 1
position_left sleeping = 3
position_left (back e) = 0

abbrev pub steps_left : {W : Type 0} → Looping W → ℕ
steps_left s = position_left s.position + (if s.pending then 2 else 0)

-- How the loop has come to its end.
abbrev IsEnd : Err → Position → Type 0
IsEnd e at_head = Unit
IsEnd e choosing = Unit
IsEnd e sleeping = Unit
IsEnd e (back x) = (x ≡ e) ⊎ (x ≡ wrap "sleep interrupted" e)

at_most_five :
    {W : Type 0} (s : Looping W) (k : ℕ) (t : Looping W) → k + steps_left t ≤ steps_left s → k ≤ 5
at_most_five s k t few = ground arith

end_at :
    (e x : Err) (k : ℕ) (p : Position)
    → p ≡ back x
    → (k ≡ 0) ⊎ IsEnd e p
    → (k ≡ 0) ⊎ ((x ≡ e) ⊎ (x ≡ wrap "sleep interrupted" e))
end_at e x k p now so_far = subst (λ q. (k ≡ 0) ⊎ IsEnd e q) now so_far

module _ {W : Type 0} (call : W → W) (next : W → ℤ) (o : Options W) where
  -- Steps of the loop alone.
  pub data Alone (s : Looping W) : ℕ → Looping W → Type 0 where
    no_steps : Alone s zero s
    more_steps :
        {k : ℕ} {t u : Looping W} → Alone s k t → LoopStep call next o t u → Alone s (suc k) u

  pub LoopStep-steps_left :
      (e : Err) (s t : Looping W)
      → LoopStep call next o s t
      → s.ctx_err ≡ some e
      → (t.ctx_err ≡ some e) × (steps_left t < steps_left s) × IsEnd e t.position
  unfolding again call_poll sleep
  LoopStep-steps_left e s t (polls at) done = ground arith
  LoopStep-steps_left e s t (ends x at c) done = ground arith
  LoopStep-steps_left e s t (goes_on at c) done = ground arith
  LoopStep-steps_left e s t (waits random at c empty) done = absurd (cc)
  LoopStep-steps_left e s t (is_interrupted x at c) done = ground arith
  LoopStep-steps_left e s t (times_out at) done = ground arith
  LoopStep-steps_left e s t (is_notified at c) done = ground arith

  Alone-steps_left :
      (e : Err) (s : Looping W) (k : ℕ) (t : Looping W)
      → s.ctx_err ≡ some e
      → Alone s k t
      → (t.ctx_err ≡ some e) × (k + steps_left t ≤ steps_left s) × ((k ≡ 0) ⊎ IsEnd e t.position)
  Alone-steps_left e s k t done no_steps = (done, omega arith, inl refl)
  Alone-steps_left e s k t done (more_steps {k = m} {t = r} run st) =
      let (still, few, _) = Alone-steps_left e s m r done run in
      let (after, fewer, is_end) = LoopStep-steps_left e r t st still in
      (after, omega arith, inr is_end)

  pub canceled_can_go :
      (e : Err) (s : Looping W) (p : Position)
      → s.position ≡ p
      → s.ctx_err ≡ some e
      → ((x : Err) × (s.position ≡ back x)) ⊎ ((t : Looping W) × LoopStep call next o s t)
  canceled_can_go e s at_head at done = inr (_, polls at)
  canceled_can_go e s choosing at done = inr (_, ends e at done)
  canceled_can_go e s sleeping at done = inr (_, is_interrupted e at done)
  canceled_can_go e s (back x) at done = inl (x, at)

  -- Once the context is done with an error, and while no more messages come, the loop makes at most
  -- five more steps, whichever channels its selects take, can make one until it has returned, and
  -- has then returned that error, as it is or wrapped, if it had not returned before.
  pub canceled_stops :
      (e : Err) (s : Looping W) (k : ℕ) (t : Looping W)
      → s.ctx_err ≡ some e
      → Alone s k t
      → (k ≤ 5)
        × (((x : Err) × (t.position ≡ back x)
              × ((k ≡ 0) ⊎ ((x ≡ e) ⊎ (x ≡ wrap "sleep interrupted" e))))
            ⊎ ((u : Looping W) × LoopStep call next o t u))
  canceled_stops e s k t done run =
      let (still, few, so_far) = Alone-steps_left e s k t done run in
      (
        at_most_five s k t few,
        elim (canceled_can_go e t t.position refl still) [
          | inl (x, at) ↦ inl (x, at, end_at e x k t.position at so_far)
          | inr can ↦ inr can
        ],
      )
