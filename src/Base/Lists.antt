-- ===== src/Base/Lists.antt =====
-- Lists measured by native numbers, membership as a Boolean test, predicates on all elements.
use Prim.Native.Nat.{ℕ, suc, ◌+◌, ◌≤◌, ◌<◌}
use mathlib.Core.Path.{◌≡◌, refl, sym, ap₂}
use mathlib.Core.Bool.{Bool, true, false, ◌||◌}
use mathlib.Core.List.{List, [], ◌∷◌, ◌++◌}
use native.Mathlib.Omega.{arith}
use paperminer.Base.Tests.{◌==◌}

module _ {ℓ} {A : Type ℓ} where
  abbrev pub length : List A → ℕ
  length [] = 0
  length (x ∷ xs) = suc (length xs)

  pub length-append : (xs ys : List A) → length (xs ++ ys) ≡ length xs + length ys
  length-append [] ys = omega arith
  length-append (x ∷ xs) ys = omega (arith, length-append xs ys)

-- A predicate on every element computes to tuples.
abbrev pub All {ℓ κ} : {A : Type ℓ} → (A → Type κ) → List A → Type κ
All P [] = Unit
All P (x ∷ xs) = P x × All P xs

pub All-append {ℓ κ} :
    {A : Type ℓ} (P : A → Type κ) (xs ys : List A) → All P xs → All P ys → All P (xs ++ ys)
All-append P [] ys hx hy = hy
All-append P (x ∷ xs) ys hx hy = (hx.0, All-append P xs ys hx.1 hy)

-- `_, ok := m[a]` where the map's keys are the list.
abbrev pub contains : List ℕ → ℕ → Bool
contains [] a = false
contains (x ∷ xs) a = (x == a) || contains xs a

pub contains-append :
    (xs ys : List ℕ) (a : ℕ) → contains (xs ++ ys) a ≡ (contains xs a || contains ys a)
contains-append [] ys a = refl
contains-append (x ∷ xs) ys a = ground (arith, contains-append xs ys a)

-- No number stands in the list twice.
abbrev pub NoDup : List ℕ → Type 0
NoDup [] = Unit
NoDup (x ∷ xs) = (contains xs x ≡ false) × NoDup xs

-- Strictly ascending: no duplicates, and in order.
abbrev pub IsAbove : ℕ → List ℕ → Type 0
IsAbove a [] = Unit
IsAbove a (x ∷ xs) = (a < x) × IsAbove a xs

abbrev pub IsAscending : List ℕ → Type 0
IsAscending [] = Unit
IsAscending (x ∷ xs) = IsAbove x xs × IsAscending xs

not_contains_above : (a : ℕ) (xs : List ℕ) → IsAbove a xs → contains xs a ≡ false
not_contains_above a [] h = refl
not_contains_above a (x ∷ xs) h = ground (arith, not_contains_above a xs h.1)

IsAbove-weaken : (a b : ℕ) (xs : List ℕ) → a ≤ b → IsAbove b xs → IsAbove a xs
IsAbove-weaken a b [] le h = tt
IsAbove-weaken a b (x ∷ xs) le h = (omega arith, IsAbove-weaken a b xs le h.1)

above_contains : (a x : ℕ) (xs : List ℕ) → IsAbove a xs → contains xs x ≡ true → a < x
above_contains a x [] h e = ground arith
above_contains a x (y ∷ xs) h e = ground (arith, above_contains a x xs h.1)

heads_le :
    (x y : ℕ) (xs ys : List ℕ) → IsAbove x xs → contains (x ∷ xs) y ≡ contains (y ∷ ys) y → x ≤ y
heads_le x y xs ys h e = ground (arith, above_contains x y xs h)

tails_agree :
    (x y : ℕ) (xs ys : List ℕ)
    → x ≡ y
    → IsAbove x xs
    → IsAbove y ys
    → (a : ℕ) → contains (x ∷ xs) a ≡ contains (y ∷ ys) a
    → contains xs a ≡ contains ys a
tails_agree x y xs ys e hx hy a h =
    ground (arith, not_contains_above x xs hx, not_contains_above y ys hy)

-- An ascending list is determined by its members.
pub IsAscending-ext :
    (xs ys : List ℕ)
    → IsAscending xs
    → IsAscending ys
    → ((a : ℕ) → contains xs a ≡ contains ys a)
    → xs ≡ ys
IsAscending-ext [] [] hx hy h = refl
IsAscending-ext [] (y ∷ ys) hx hy h = absurd (ground (arith, h y))
IsAscending-ext (x ∷ xs) [] hx hy h = absurd (ground (arith, h x))
IsAscending-ext (x ∷ xs) (y ∷ ys) hx hy h =
    let le = heads_le x y xs ys hx.0 (h y) in
    let ge = heads_le y x ys xs hy.0 (sym (h x)) in
    let e : x ≡ y = omega arith in
    ap₂ ◌∷◌ e (IsAscending-ext xs ys hx.1 hy.1 (λ a. tails_agree x y xs ys e hx.0 hy.0 a (h a)))
