-- ===== src/Poller/Channel.antt =====
-- The loop of internal/poller/poller.go beside those it shares a channel and a context with, as a
-- step relation: the workflow's notifications (internal/cataloger/workflow.go), and whoever ends the
-- context. The channel has room for one message.
use paperminer.Base.{
  ℕ, zero, suc, ◌≡◌, Bool, true, false, ℤ, pos, Option, none, some, ltb_ℤ, if◌then◌else◌,
}
use paperminer.Errors.{Err, wrap}
use paperminer.Poller.{Options, next_delay}

-- Where the loop is: at its head, at its first `select`, at the second, or returned.
pub data Position : Type 0 where
  at_head choosing sleeping : Position
  back : Err → Position

-- `pending` says whether the channel holds a message, and `ctx_err` is `ctx.Err()`. `begun` counts
-- the iterations.
pub record Looping (W : Type 0) : Type 0 where
  pub position : Position
  pub pending : Bool
  pub ctx_err : Option Err
  pub begun : ℕ
  pub state : W

-- `NotifyPostConsume`: a message more than the channel holds is dropped.
unfoldable pub notify_post_consume : Bool → Bool
notify_post_consume pending = if pending then pending else true

module _ {W : Type 0} where
  unfoldable pub enter : W → Looping W
  enter s = record { position = at_head; pending = false; ctx_err = none; begun = 1; state = s }

  unfoldable pub again : Bool → Looping W → Looping W
  again pending s = record s { position = at_head; pending = pending; begun = suc s.begun }

  unfoldable pub call_poll : (W → W) → Looping W → Looping W
  call_poll call s = record s { position = choosing; state = call s.state }

  -- The `default` of the first `select`: there is a wait for a positive delay.
  unfoldable pub sleep : (W → ℤ) → Options W → ℕ → Looping W → Looping W
  unfolding again
  sleep next o random s =
      if ltb_ℤ (pos 0) (next_delay o (next s.state) random)
      then record s { position = sleeping }
      else again s.pending s

-- What others do to the channel and the context.
pub data OtherStep {W : Type 0} (s : Looping W) : Looping W → Type 0 where
  notifies : OtherStep s (record s { pending = notify_post_consume s.pending })
  cancels : (e : Err) → s.ctx_err ≡ none → OtherStep s (record s { ctx_err = some e })

module _ {W : Type 0} (call : W → W) (next : W → ℤ) (o : Options W) where
  -- What the loop does. The timer may fire at any time; a `default` is taken if nothing is ready.
  pub data LoopStep (s : Looping W) : Looping W → Type 0 where
    polls : s.position ≡ at_head → LoopStep s (call_poll call s)
    ends :
        (e : Err)
        → s.position ≡ choosing
        → s.ctx_err ≡ some e
        → LoopStep s (record s { position = back e })
    goes_on : s.position ≡ choosing → s.pending ≡ true → LoopStep s (again false s)
    waits :
        (random : ℕ)
        → s.position ≡ choosing
        → s.ctx_err ≡ none
        → s.pending ≡ false
        → LoopStep s (sleep next o random s)
    is_interrupted :
        (e : Err)
        → s.position ≡ sleeping
        → s.ctx_err ≡ some e
        → LoopStep s (record s { position = back (wrap "sleep interrupted" e) })
    times_out : s.position ≡ sleeping → LoopStep s (again s.pending s)
    is_notified : s.position ≡ sleeping → s.pending ≡ true → LoopStep s (again false s)

  -- `Run k s t`: the loop makes k steps from s to t, and the others any number in between.
  pub data Run (s : Looping W) : ℕ → Looping W → Type 0 where
    nothing : Run s zero s
    other_step : {k : ℕ} {t u : Looping W} → Run s k t → OtherStep t u → Run s k u
    loop_step : {k : ℕ} {t u : Looping W} → Run s k t → LoopStep t u → Run s (suc k) u
