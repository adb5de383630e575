-- ===== src/Slices/Laws.antt =====
-- Sorting and compacting yield the ascending list of the elements, and the standard library's
-- functions meet what is assumed of golang.org/x/exp.
use mathlib.Core.Bool.{◌||◌}
use paperminer.Base.{
  ℕ, ◌≤◌, ◌≡◌, refl, ◌↔◌, true, List, [], ◌∷◌, arith, contains, IsAbove, IsAscending, ◌==◌, All,
}
use paperminer.Slices.{IsDocumented, equal, std_ops}
use paperminer.Slices.Std.{insert, sort, compact_from, compact}

-- In order, with equal elements allowed.
abbrev IsSorted : List ℕ → Type 0
IsSorted [] = Unit
IsSorted (x ∷ xs) = All (λ y. x ≤ y) xs × IsSorted xs

contains-insert :
    (a : ℕ) (xs : List ℕ) (b : ℕ) → contains (insert a xs) b ≡ (a == b || contains xs b)
unfolding insert
contains-insert a [] b = refl
contains-insert a (x ∷ xs) b = ground (arith, contains-insert a xs b)

pub contains-sort : (l : List ℕ) (a : ℕ) → contains (sort l) a ≡ contains l a
unfolding sort
contains-sort [] a = refl
contains-sort (x ∷ xs) a = ground (arith, contains-insert x (sort xs) a, contains-sort xs a)

All-weaken : (a b : ℕ) (xs : List ℕ) → a ≤ b → All (λ y. b ≤ y) xs → All (λ y. a ≤ y) xs
All-weaken a b [] le h = tt
All-weaken a b (x ∷ xs) le h = (omega arith, All-weaken a b xs le h.1)

All-insert : (a b : ℕ) (xs : List ℕ) → a ≤ b → All (λ y. a ≤ y) xs → All (λ y. a ≤ y) (insert b xs)
unfolding insert
All-insert a b [] le h = (le, tt)
All-insert a b (x ∷ xs) le h = ground (arith, All-insert a b xs le h.1)

insert-IsSorted : (a : ℕ) (xs : List ℕ) → IsSorted xs → IsSorted (insert a xs)
unfolding insert
insert-IsSorted a [] h = (tt, tt)
insert-IsSorted a (x ∷ xs) h =
    ground (arith, insert-IsSorted a xs h.1, All-weaken a x xs, All-insert x a xs)

sort-IsSorted : (l : List ℕ) → IsSorted (sort l)
unfolding sort
sort-IsSorted [] = tt
sort-IsSorted (x ∷ xs) = insert-IsSorted x (sort xs) (sort-IsSorted xs)

contains-compact_from :
    (x : ℕ) (xs : List ℕ) (a : ℕ) → contains (x ∷ compact_from x xs) a ≡ contains (x ∷ xs) a
unfolding compact_from
contains-compact_from x [] a = refl
contains-compact_from x (y ∷ ys) a =
    ground (arith, contains-compact_from x ys a, contains-compact_from y ys a)

pub contains-compact : (l : List ℕ) (a : ℕ) → contains (compact l) a ≡ contains l a
unfolding compact
contains-compact [] a = refl
contains-compact (x ∷ xs) a = contains-compact_from x xs a

IsAbove-trans : (a b : ℕ) (xs : List ℕ) → a ≤ b → IsAbove b xs → IsAbove a xs
IsAbove-trans a b [] le h = tt
IsAbove-trans a b (x ∷ xs) le h = (omega arith, IsAbove-trans a b xs le h.1)

compact_from-IsAscending :
    (x : ℕ) (xs : List ℕ) → All (λ y. x ≤ y) xs → IsSorted xs → IsAscending (x ∷ compact_from x xs)
unfolding compact_from
compact_from-IsAscending x [] h s = (tt, tt)
compact_from-IsAscending x (y ∷ ys) h s = ground (
  arith,
  compact_from-IsAscending x ys h.1 s.1,
  compact_from-IsAscending y ys s.0 s.1,
  IsAbove-trans x y (compact_from y ys),
)

-- A sorted slice is compacted to an ascending one.
compact-IsAscending : (l : List ℕ) → IsSorted l → IsAscending (compact l)
unfolding compact
compact-IsAscending [] h = tt
compact-IsAscending (x ∷ xs) h = compact_from-IsAscending x xs h.0 h.1

pub compact-sort : (l : List ℕ) → IsAscending (compact (sort l))
compact-sort l = compact-IsAscending (sort l) (sort-IsSorted l)

equal_iff : (l r : List ℕ) → (equal l r ≡ true) ↔ (l ≡ r)
unfolding equal
equal_iff [] [] = ground arith
equal_iff [] (y ∷ ys) = ground arith
equal_iff (x ∷ xs) [] = ground arith
equal_iff (x ∷ xs) (y ∷ ys) = ground (arith, equal_iff xs ys)

-- The operations of the standard library meet the assumptions.
pub std_ops-IsDocumented : IsDocumented std_ops
std_ops-IsDocumented = record {
  contains-sort = contains-sort;
  contains-compact = contains-compact;
  compact-sort = compact-sort;
  equal_iff = equal_iff;
  contains-keys = λ l a. refl;
}
