-- ===== src/Slices/Std.antt =====
-- `slices.Sort` and `slices.Compact` of the standard library, on IDs.
use paperminer.Base.{ℕ, Bool, true, false, ◌&&◌, List, [], ◌∷◌, leb, ◌==◌, if◌then◌else◌}

unfoldable pub insert : ℕ → List ℕ → List ℕ
insert a [] = a ∷ []
insert a (x ∷ xs) = if leb a x then a ∷ x ∷ xs else x ∷ insert a xs

unfoldable pub sort : List ℕ → List ℕ
unfolding insert
sort [] = []
sort (x ∷ xs) = insert x (sort xs)

-- The first of each run of equal elements is kept; `compact_from` goes on behind an `x` that was.
unfoldable pub compact_from : ℕ → List ℕ → List ℕ
compact_from x [] = []
compact_from x (y ∷ ys) = if x == y then compact_from x ys else y ∷ compact_from y ys

unfoldable pub compact : List ℕ → List ℕ
unfolding compact_from
compact [] = []
compact (x ∷ xs) = x ∷ compact_from x xs

unfoldable pub equal : List ℕ → List ℕ → Bool
equal [] [] = true
equal [] (y ∷ ys) = false
equal (x ∷ xs) [] = false
equal (x ∷ xs) (y ∷ ys) = x == y && equal xs ys
