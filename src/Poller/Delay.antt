-- ===== src/Poller/Delay.antt =====
-- The delay between two polls (`nextDelay` of internal/poller/poller.go).
use native.Mathlib.Nat.{
  div-mul-le_self, le-div_iff_mul-le, div-one, zero-div, mul-zero, mul-le-mul_left,
}
use paperminer.Base.{
  ℕ, zero, suc, ◌+◌, ◌-◌, ◌*◌, ◌/◌, ◌^◌, ◌≤◌, ◌<◌, ◌≡◌, refl, ap, ℤ, pos, negsuc, ◌+ℤ◌, ◌-ℤ◌, ◌<ℤ◌,
  ◌⊎◌, inl, inr, true, false, arith, ltb_ℤ, eqb_ℤ,
}
use native.Mathlib.Decide.{dec_lt}
use paperminer.Poller.{Options, scale, clamp, distort, next_delay}

-- Half the jitter at most: m stands for the distance of a random number from 2^52.
offset_le :
    (d n m den : ℕ) → 0 < den → m ≤ 2 ^ 52 → d * (n * m / 1) / (den * 2 ^ 53) * (2 * den) ≤ d * n
offset_le d n m den positive le =
    let small = div-mul-le_self (d * (n * m / 1)) (den * 2 ^ 53) in
    let all : d * n * m ≤ d * n * 2 ^ 52 = mul-le-mul_left (d * n) le in
    grind (arith, div-one (n * m))

negated : (m : ℕ) → pos 0 -ℤ pos (suc m) ≡ negsuc m
unfolding ◌-ℤ◌
negated m = ground arith

scale_neg : (d m D : ℕ) → scale (pos d) (pos 0 -ℤ pos m) D ≡ pos 0 -ℤ pos (d * m / D)
unfolding ◌-ℤ◌
scale_neg d zero D = rw (mul-zero d, zero-div D) refl
scale_neg d (suc m) D = rw (negated m) refl

below_half : (random h : ℕ) → random < h → pos random -ℤ pos h ≡ negsuc (h - random - 1)
unfolding ◌-ℤ◌
below_half random h lt = ground arith

above_half : (random h : ℕ) → h ≤ random → pos random -ℤ pos h ≡ pos (random - h)
unfolding ◌-ℤ◌
above_half random h le = ground arith

scale_below :
    (d n random h D : ℕ)
    → random < h
    → scale (pos d) (scale (pos n) (pos random -ℤ pos h) 1) D
      ≡ pos 0 -ℤ pos (d * (n * (h - random) / 1) / D)
scale_below d n random h D lt =
    let e : suc (h - random - 1) ≡ h - random = omega arith in
    rw (below_half random h lt, e) (scale_neg d (n * (h - random) / 1) D)

scale_above :
    (d n random h D : ℕ)
    → h ≤ random
    → scale (pos d) (scale (pos n) (pos random -ℤ pos h) 1) D ≡ pos (d * (n * (random - h) / 1) / D)
scale_above d n random h D le = rw (above_half random h le) refl

-- A distance of zero or more on either side.
offset_cases :
    (d n random den : ℕ)
    → 0 < den
    → random < 2 ^ 53
    → (q : ℕ) × (q * (2 * den) ≤ d * n)
      × ((scale (pos d) (scale (pos n) (pos random -ℤ pos (2 ^ 52)) 1) (den * 2 ^ 53) ≡ pos q)
          ⊎ (scale (pos d) (scale (pos n) (pos random -ℤ pos (2 ^ 52)) 1) (den * 2 ^ 53)
              ≡ pos 0 -ℤ pos q))
offset_cases d n random den positive lt = elim (dec_lt random (2 ^ 52)) [
  | yes below ↦ (
    d * (n * (2 ^ 52 - random) / 1) / (den * 2 ^ 53),
    offset_le d n (2 ^ 52 - random) den positive (omega arith),
    inr (scale_below d n random (2 ^ 52) (den * 2 ^ 53) below),
  )
  | no above ↦ (
    d * (n * (random - 2 ^ 52) / 1) / (den * 2 ^ 53),
    offset_le d n (random - 2 ^ 52) den positive (omega arith),
    inl (scale_above d n random (2 ^ 52) (den * 2 ^ 53) (omega arith)),
  )
]

clamp_within :
    {W : Type 0} (o : Options W) (delay : ℤ) (lo hi : ℕ)
    → o.min_delay ≡ pos lo
    → o.max_delay ≡ pos hi
    → lo ≤ hi
    → 0 < hi
    → (d : ℕ) × (lo ≤ d) × (d ≤ hi) × (clamp o delay ≡ pos d)
unfolding clamp
clamp_within o (pos d) lo hi emin emax le positive = elim (dec_lt d lo) [
  | yes small ↦ (lo, omega arith, le, ground arith)
  | no fits ↦ elim (dec_lt hi d) [
    | yes large ↦ (hi, le, omega arith, ground arith)
    | no inside ↦ (d, omega arith, omega arith, ground arith)
  ]
]
clamp_within o (negsuc d) lo hi emin emax le positive = (lo, omega arith, le, ground arith)

add_pos : (d q : ℕ) → pos d +ℤ pos q ≡ pos (d + q)
unfolding ◌+ℤ◌
add_pos d q = ground arith

add_neg : (d q : ℕ) → pos d +ℤ (pos 0 -ℤ pos q) ≡ pos d -ℤ pos q
unfolding ◌+ℤ◌ ◌-ℤ◌
add_neg d q = ground arith

distort_within :
    {W : Type 0} (o : Options W) (d n random : ℕ)
    → o.jitter.num ≡ pos n
    → 0 < o.jitter.den
    → random < 2 ^ 53
    → (q : ℕ) × (q * (2 * o.jitter.den) ≤ d * n)
      × ((distort o (pos d) random ≡ pos (d + q)) ⊎ (distort o (pos d) random ≡ pos d -ℤ pos q))
unfolding distort
distort_within o d zero random e positive lt = (0, omega arith, inl (rw e (ap pos (omega arith))))
distort_within o d (suc n) random e positive lt =
    let some_jitter : eqb_ℤ (pos (suc n)) (pos 0) ≡ false = ground arith in
    let (q, bound, sides) = offset_cases d (suc n) random o.jitter.den positive lt in
    elim sides [
      | inl up ↦ (q, bound, inl (rw (e, some_jitter, up) (add_pos d q)))
      | inr down ↦ (q, bound, inr (rw (e, some_jitter, down) (add_neg d q)))
    ]

-- With limits and a jitter that is not negative, the answer of `NextDelay` is first brought within
-- the limits, and then moved by at most half the jitter's share of it, to either side.
pub next_delay_within :
    {W : Type 0} (o : Options W) (delay : ℤ) (lo hi n random : ℕ)
    → o.min_delay ≡ pos lo
    → o.max_delay ≡ pos hi
    → lo ≤ hi
    → 0 < hi
    → o.jitter.num ≡ pos n
    → 0 < o.jitter.den
    → random < 2 ^ 53
    → (d q : ℕ) × (lo ≤ d)
      × (d ≤ hi)
      × (q * (2 * o.jitter.den) ≤ d * n)
      × ((next_delay o delay random ≡ pos (d + q)) ⊎ (next_delay o delay random ≡ pos d -ℤ pos q))
unfolding next_delay
next_delay_within o delay lo hi n random emin emax le positive en ed lt =
    let (d, above, below, clamped) = clamp_within o delay lo hi emin emax le positive in
    let (q, bound, sides) = distort_within o d n random en ed lt in
    (d, q, above, below, bound, rw clamped sides)

clamp_low :
    {W : Type 0} (o : Options W) (delay : ℤ) (lo : ℕ)
    → o.min_delay ≡ pos lo
    → delay <ℤ pos lo
    → clamp o delay ≡ pos lo
unfolding clamp
clamp_low o delay lo e lt =
    let less : ltb_ℤ delay (pos lo) ≡ true = ground arith in rw (e, less) refl

share_positive : (den lo n : ℕ) → 0 < den → 2 * den ≤ lo * n → (0 < lo) × (0 < n)
share_positive den zero n positive h = absurd (ground arith)
share_positive den (suc lo) zero positive h = absurd (omega (arith, mul-zero (suc lo)))
share_positive den (suc lo) (suc n) positive h = (omega arith, omega arith)

offset_positive :
    (lo n den : ℕ) → 0 < den → 2 * den ≤ lo * n → 0 < lo * (n * 2 ^ 52 / 1) / (den * 2 ^ 53)
offset_positive lo n den positive h =
    (le-div_iff_mul-le (omega arith)).1 (rw (div-one (n * 2 ^ 52)) (grind arith))

shorter : (d q : ℕ) → 0 < q → pos d -ℤ pos q <ℤ pos d
unfolding ◌-ℤ◌
shorter d q positive = ground arith

distort_at_zero :
    {W : Type 0} (o : Options W) (d n : ℕ)
    → o.jitter.num ≡ pos n
    → eqb_ℤ (pos n) (pos 0) ≡ false
    → distort o (pos d) 0 ≡ pos d -ℤ pos (d * (n * 2 ^ 52 / 1) / (o.jitter.den * 2 ^ 53))
unfolding distort
distort_at_zero o d n e some_jitter =
    rw (e, some_jitter, scale_below d n 0 (2 ^ 52) (o.jitter.den * 2 ^ 53) (omega arith))
      (add_neg d (d * (n * 2 ^ 52 / 1) / (o.jitter.den * 2 ^ 53)))

-- The minimum is none: where half the jitter's share of it is a nanosecond or more, a call below
-- the minimum and a random number of zero give a shorter delay.
pub next_delay_below_min :
    {W : Type 0} (o : Options W) (delay : ℤ) (lo n : ℕ)
    → o.min_delay ≡ pos lo
    → delay <ℤ pos lo
    → o.jitter.num ≡ pos n
    → 0 < o.jitter.den
    → 2 * o.jitter.den ≤ lo * n
    → next_delay o delay 0 <ℤ pos lo
unfolding next_delay
next_delay_below_min o delay lo n emin lt en ed share =
    let (_, positive) = share_positive o.jitter.den lo n ed share in
    let some_jitter : eqb_ℤ (pos n) (pos 0) ≡ false = ground arith in
    rw (clamp_low o delay lo emin lt, distort_at_zero o lo n en some_jitter)
      (shorter lo (lo * (n * 2 ^ 52 / 1) / (o.jitter.den * 2 ^ 53))
        (offset_positive lo n o.jitter.den ed share))
