-- ===== src/Poller.antt =====
-- internal/poller/poller.go: a function is called again and again, with a delay between the calls.
-- What happens around the loop is a list of rounds, one for each call.
pub mod Delay
pub mod Canceled
pub mod Channel
pub mod Notified
pub mod Stops
use paperminer.Base.{
  ℕ, zero, suc, ◌+◌, ◌-◌, ◌*◌, ◌/◌, ◌^◌, ℤ, pos, negsuc, ◌+ℤ◌, ◌-ℤ◌, Bool, true, false, not, ◌&&◌,
  ◌||◌, Option, none, some, List, [], ◌∷◌, ltb_ℤ, eqb_ℤ, if◌then◌else◌,
}
use paperminer.Errors.{Err, invalid, detail, canceled, is_error, wrap}
use paperminer.Io.{Io, Result, ok, err, pure, fail}

-- A `float64` that is given as a fraction, such as 0.1.
pub record Ratio : Type 0 where
  pub num : ℤ
  pub den : ℕ

-- `poll` and `next_delay` are nil where they are `none`; `next_delay` may answer by the state.
pub record Options (W : Type 0) : Type 0 where
  pub poll : Option (W → W)
  pub next_delay : Option (W → ℤ)
  pub min_delay : ℤ
  pub max_delay : ℤ
  pub jitter : Ratio

-- Integers: the product with a sign, and the conversion of a fraction, which cuts towards zero.
abbrev pub scale : ℤ → ℤ → ℕ → ℤ
scale (pos a) (pos b) d = pos (a * b / d)
scale (pos a) (negsuc b) d = pos 0 -ℤ pos (a * suc b / d)
scale (negsuc a) (pos b) d = pos 0 -ℤ pos (suc a * b / d)
scale (negsuc a) (negsuc b) d = pos (suc a * suc b / d)

-- The limits on a delay.
unfoldable pub clamp : {W : Type 0} → Options W → ℤ → ℤ
clamp o delay =
    if ltb_ℤ delay o.min_delay
    then o.min_delay
    else if not (eqb_ℤ o.max_delay (pos 0)) && ltb_ℤ o.max_delay delay
    then o.max_delay
    else delay

-- `rand.Float64()` is `random` / 2^53, and so `-0.5 + rand.Float64()` is `random - 2^52` of these.
-- The products are exact here, where `float64` rounds them.
unfoldable pub distort : {W : Type 0} → Options W → ℤ → ℕ → ℤ
distort o delay random =
    if eqb_ℤ o.jitter.num (pos 0)
    then delay
    else delay
      +ℤ scale delay (scale o.jitter.num (pos random -ℤ pos (2 ^ 52)) 1) (o.jitter.den * 2 ^ 53)

-- `(*Options).nextDelay` on the answer of `NextDelay`.
unfoldable pub next_delay : {W : Type 0} → Options W → ℤ → ℕ → ℤ
unfolding clamp distort
next_delay o delay random = distort o (clamp o delay) random

-- The first `select` of an iteration, and the second, which waits for the timer too. `done` comes
-- with `ctx.Err()`.
pub data Ready : Type 0 where
  done : Err → Ready
  notified : Ready
  idle : Ready

pub data Wakeup : Type 0 where
  interrupted : Err → Wakeup
  fired : Wakeup
  woken : Wakeup

pub record Round : Type 0 where
  pub ready : Ready
  pub random : ℕ
  pub wakeup : Wakeup

-- `opts.Poll`, `opts.NextDelay` and the options as the loop finds them.
abbrev pub Started : Type 0 → Type 0
Started W = (W → W) × (W → ℤ) × Options W

with_defaults : {W : Type 0} → Options W → Option (W → W) → Option (W → ℤ) → Result (Started W)
with_defaults o none next = err (detail invalid "Poll is required")
with_defaults o (some call) none = err (detail invalid "NextDelay is required")
with_defaults o (some call) (some next) =
    let min_delay = if eqb_ℤ o.min_delay (pos 0) then pos (10 ^ 9) else o.min_delay in
    if ltb_ℤ o.jitter.num (pos 0) || ltb_ℤ (pos o.jitter.den) o.jitter.num
    then err (detail invalid "Jitter must be in [0..1.0]")
    else ok (call, next, record o { min_delay = min_delay })

-- The checks before the loop.
unfoldable pub checked : {W : Type 0} → Options W → Result (Started W)
unfolding with_defaults
checked o = with_defaults o o.poll o.next_delay

-- How an iteration ends: the loop goes on, or it returns an error.
wake : Wakeup → Option Err
wake (interrupted e) = some (wrap "sleep interrupted" e)
wake fired = none
wake woken = none

unfoldable pub after_poll : Ready → ℤ → Wakeup → Option Err
unfolding wake
after_poll (done e) delay wakeup = some e
after_poll notified delay wakeup = none
after_poll idle delay wakeup = if ltb_ℤ (pos 0) delay then wake wakeup else none

-- `ctx_err` is `ctx.Err()` once the loop has returned.
unfoldable pub without_canceled : Err → Option Err → Result (Unit {0})
without_canceled e none = err e
without_canceled e (some c) = if is_error e canceled && is_error c canceled then ok tt else err e

-- `Poll` at its end, which it does not reach while the loop still runs.
at_end : Option Err → Option Err → Option (Result (Unit {0}))
unfolding without_canceled
at_end none ctx_err = none
at_end (some e) ctx_err = some (without_canceled e ctx_err)

module _ {W : Type 0} where
  ends_with : Option Err → Option Err × W → W → Option Err × W
  ends_with none rest s = rest
  ends_with (some e) rest s = (some e, s)

  -- The error that the loop returns, or `none` while it still runs, and the state.
  unfoldable pub poll_loop : (W → W) → (W → ℤ) → Options W → List Round → W → Option Err × W
  unfolding after_poll ends_with
  poll_loop call next o [] s = (none, s)
  poll_loop call next o (r ∷ rounds) s =
      let s' = call s in
      let rest = poll_loop call next o rounds s' in
      ends_with (after_poll r.ready (next_delay o (next s') r.random) r.wakeup) rest s'

  start : Result (Started W) → List Round → W → Option Err × W
  unfolding poll_loop
  start (err e) rounds s = (some e, s)
  start (ok (call, next, o)) rounds s = poll_loop call next o rounds s

  unfoldable pub poll : Options W → Option Err → List Round → W → Option (Result (Unit {0})) × W
  unfolding checked start at_end
  poll o ctx_err rounds s = let (e, s') = start (checked o) rounds s in (at_end e ctx_err, s')
