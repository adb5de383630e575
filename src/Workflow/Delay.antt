-- ===== src/Workflow/Delay.antt =====
-- The delay between two polls is bounded, and the delay before a retry grows with every failed
-- attempt (`Run` and `processDocument` of internal/cataloger/workflow.go).
use native.Mathlib.Nat.{le-div_iff_mul-le, div-mul-le_self, pow-suc}
use paperminer.Base.{ℕ, zero, suc, ◌+◌, ◌*◌, ◌/◌, ◌^◌, ◌≤◌, ◌<◌, ◌≡◌, subst, pos, ◌<ℤ◌, arith}
use paperminer.Store.{bits_64}
use paperminer.Workflow.{Workflow, int_64, growth, retry_delay}

pow_le : (n : ℕ) → 2 ≤ n → 2 * 2 ^ n ≤ 3 ^ n
pow_le zero h = omega arith
pow_le (suc zero) h = omega arith
pow_le (suc (suc zero)) h = omega arith
pow_le (suc (suc (suc n))) h =
    let a = pow_le (suc (suc n)) (omega arith) in
    omega (arith, pow-suc 2 (suc (suc n)), pow-suc 3 (suc (suc n)))

pow_positive : (n : ℕ) → 0 < 2 ^ n
pow_positive zero = omega arith
pow_positive (suc n) = omega (arith, pow_positive n, pow-suc 2 n)

one_more : (q a b : ℕ) → q * a ≤ b → 2 * a ≤ b → suc q * (a * 2) ≤ b * 3
one_more q a b h g = grind arith

growth-strict : (n : ℕ) → 2 ≤ n → growth n < growth (suc n)
unfolding growth
growth-strict n h = (le-div_iff_mul-le (pow_positive (suc n))).1 (
    rw (pow-suc 2 n, pow-suc 3 n)
      (one_more (3 ^ n / 2 ^ n) (2 ^ n) (3 ^ n) (div-mul-le_self (3 ^ n) (2 ^ n)) (pow_le n h)))

int_64-small : (n : ℕ) → n < 2 ^ 63 → int_64 (bits_64 (pos n)) ≡ pos n
unfolding int_64 bits_64
int_64-small n h = ground arith

times-strict : (p a b : ℕ) → 0 < p → a < b → p * a < p * b
times-strict zero a b h lt = absurd (omega arith)
times-strict (suc p) a b h lt = grind arith

growth-more : (count : ℕ) → 0 < count → growth (1 + count) < growth (1 + suc count)
growth-more count h =
    let e : suc (1 + count) ≡ 1 + suc count = omega arith in
    subst (λ n. growth (1 + count) < growth n) e (growth-strict (1 + count) (omega arith))

-- With a positive poll interval each retry waits strictly longer than the one before it, as long as
-- the longer delay fits into 63 bits.
pub retry_delay-strict :
    (p count : ℕ)
    → 0 < p
    → 0 < count
    → p * growth (1 + suc count) < 2 ^ 63
    → retry_delay (pos p) count <ℤ retry_delay (pos p) (suc count)
unfolding retry_delay
retry_delay-strict p count hp hc small =
    let more =
      times-strict p (growth (1 + count)) (growth (1 + suc count)) hp (growth-more count hc) in
    rw
      (
        int_64-small (p * growth (1 + count)) (omega arith),
        int_64-small (p * growth (1 + suc count)) small,
      )
      (omega (arith, more))
