-- ===== src/Poller/Canceled.antt =====
-- How `Poll` of internal/poller/poller.go ends.
use paperminer.Base.{
  String, ◌≡◌, ◌⊎◌, refl, subst, ℤ, pos, inl, inr, true, false, ◌||◌, Bool-cases, Option-cases,
  Option, none, some, List, [], ◌∷◌, All, ltb_ℤ,
}
use paperminer.Errors.{Err, sentinel, canceled, invalid, detail, is_error, wrap}
use paperminer.Io.{ok, err}
use paperminer.Poller.{
  Options, Round, Ready, done, notified, idle, Wakeup, interrupted, fired, woken, wake, after_poll,
  next_delay, Started, with_defaults, checked, ends_with, poll_loop, start, without_canceled,
  at_end, poll,
}

-- Where the context of a round is done, it was canceled (and no deadline was exceeded).
abbrev ReadyCanceled : Ready → Type 0
ReadyCanceled (done e) = e ≡ sentinel canceled
ReadyCanceled notified = Unit
ReadyCanceled idle = Unit

abbrev WakeupCanceled : Wakeup → Type 0
WakeupCanceled (interrupted e) = e ≡ sentinel canceled
WakeupCanceled fired = Unit
WakeupCanceled woken = Unit

abbrev pub OnlyCanceled : Round → Type 0
OnlyCanceled r = ReadyCanceled r.ready × WakeupCanceled r.wakeup

wake-canceled :
    (w : Wakeup) (e : Err) → WakeupCanceled w → wake w ≡ some e → is_error e canceled ≡ true
unfolding wake
wake-canceled (interrupted x) e c h =
    let same : wrap "sleep interrupted" x ≡ e = cc h in
    subst (λ y. is_error y canceled ≡ true) same (rw c refl)
wake-canceled fired e c h = absurd (cc h)
wake-canceled woken e c h = absurd (cc h)

after_poll-canceled :
    (r : Ready) (delay : ℤ) (w : Wakeup) (e : Err)
    → ReadyCanceled r
    → WakeupCanceled w
    → after_poll r delay w ≡ some e
    → is_error e canceled ≡ true
unfolding after_poll
after_poll-canceled (done x) delay w e c cw h =
    let same : x ≡ e = cc h in subst (λ y. is_error y canceled ≡ true) same (rw c refl)
after_poll-canceled notified delay w e c cw h = absurd (cc h)
after_poll-canceled idle delay w e c cw h = elim (Bool-cases (ltb_ℤ (pos 0) delay)) [
  | inl waits ↦ wake-canceled w e cw (rw waits at h)
  | inr busy ↦ absurd (cc (rw busy at h))
]

named :
    (text : String) (e : Err)
    → detail invalid text ≡ e
    → (is_error e invalid ≡ true) × (is_error e canceled ≡ false)
named text e same =
    subst (λ y. (is_error y invalid ≡ true) × (is_error y canceled ≡ false)) same (refl, refl)

module _ {W : Type 0} where
  poll_loop-canceled :
      (call : W → W) (next : W → ℤ) (o : Options W) (rounds : List Round) (s : W) (e : Err)
      → All OnlyCanceled rounds
      → (poll_loop call next o rounds s).0 ≡ some e
      → is_error e canceled ≡ true
  unfolding poll_loop ends_with
  poll_loop-canceled call next o [] s e c h = absurd (cc h)
  poll_loop-canceled call next o (r ∷ rounds) s e c h =
      let s' = call s in
      let delay = next_delay o (next s') r.random in
      elim (Option-cases (after_poll r.ready delay r.wakeup)) [
        | inl on ↦ poll_loop-canceled call next o rounds s' e c.1 (rw on at h)
        | inr (x, ends) ↦
            let same : x ≡ e = cc (rw ends at h) in
            subst (λ y. is_error y canceled ≡ true) same
              (after_poll-canceled r.ready delay r.wakeup x c.0.0 c.0.1 ends)
      ]

  -- With valid options and a context that gets canceled, `Poll` returns no error, whenever and
  -- wherever in its loop it notices; until then it runs.
  pub poll_canceled :
      (o : Options W) (started : Started W) (rounds : List Round) (s : W)
      → checked o ≡ ok started
      → All OnlyCanceled rounds
      → let (end, _) = poll o (some (sentinel canceled)) rounds s in
        (end ≡ none) ⊎ (end ≡ some (ok tt))
  unfolding poll start at_end without_canceled
  poll_canceled o (call, next, o') rounds s fine c =
      elim (Option-cases (poll_loop call next o' rounds s).0) [
        | inl runs ↦ inl (rw (fine, runs) refl)
        | inr (e, ends) ↦
            let is = poll_loop-canceled call next o' rounds s e c ends in
            inr (rw (fine, ends, is) refl)
      ]

  with_defaults-invalid :
      (o : Options W) (call : Option (W → W)) (next : Option (W → ℤ)) (e : Err)
      → with_defaults o call next ≡ err e
      → (is_error e invalid ≡ true) × (is_error e canceled ≡ false)
  unfolding with_defaults
  with_defaults-invalid o none next e h = named "Poll is required" e (cc h)
  with_defaults-invalid o (some call) none e h = named "NextDelay is required" e (cc h)
  with_defaults-invalid o (some call) (some next) e h =
      elim (Bool-cases (ltb_ℤ o.jitter.num (pos 0) || ltb_ℤ (pos o.jitter.den) o.jitter.num)) [
        | inl outside ↦ named "Jitter must be in [0..1.0]" e (cc (rw outside at h))
        | inr inside ↦ absurd (cc (rw inside at h))
      ]

  -- With invalid options `Poll` returns an error that wraps `os.ErrInvalid`, and nothing was called.
  pub poll_invalid :
      (o : Options W) (ctx_err : Option Err) (rounds : List Round) (s : W) (e : Err)
      → checked o ≡ err e
      → (is_error e invalid ≡ true) × (poll o ctx_err rounds s ≡ (some (err e), s))
  unfolding poll checked start at_end without_canceled
  poll_invalid o none rounds s e h =
      ((with_defaults-invalid o o.poll o.next_delay e h).0, rw h refl)
  poll_invalid o (some c) rounds s e h =
      let (i, n) = with_defaults-invalid o o.poll o.next_delay e h in (i, rw h (rw n refl))
