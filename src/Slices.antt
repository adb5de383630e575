-- ===== src/Slices.antt =====
-- The slice operations of Go that the program calls: `slices.Sort`, `slices.Compact` on IDs
-- (internal/objectresolver/all.go), and the interface of the package golang.org/x/exp behind
-- `normalizeIDs` (internal/cataloger/patchbuilder.go), whose code is not in the repository.
mod Std
pub mod Laws
unfoldable pub use Std.{sort, compact, equal}
use paperminer.Base.{ℕ, ◌≡◌, ◌↔◌, Bool, true, List, contains, IsAscending}

-- `slices.Sort`, `slices.Compact`, `slices.Equal` and `maps.Keys` of golang.org/x/exp. A map of the
-- program with IDs as keys is the list of its keys, in whatever order it was filled.
pub record ExpOps : Type 0 where
  pub exp_sort : List ℕ → List ℕ
  pub exp_compact : List ℕ → List ℕ
  pub exp_equal : List ℕ → List ℕ → Bool
  pub exp_keys : List ℕ → List ℕ

-- What their documentation says: sorting keeps the elements; compacting keeps them too, and leaves
-- a sorted slice with no equal neighbours; keys come in an indeterminate order.
pub record IsDocumented (o : ExpOps) : Type 0 where
  pub contains-sort : (l : List ℕ) (a : ℕ) → contains (o.exp_sort l) a ≡ contains l a
  pub contains-compact : (l : List ℕ) (a : ℕ) → contains (o.exp_compact l) a ≡ contains l a
  pub compact-sort : (l : List ℕ) → IsAscending (o.exp_compact (o.exp_sort l))
  pub equal_iff : (l r : List ℕ) → (o.exp_equal l r ≡ true) ↔ (l ≡ r)
  pub contains-keys : (l : List ℕ) (a : ℕ) → contains (o.exp_keys l) a ≡ contains l a

-- The operations as the standard library has them, with the keys in the order of insertion.
abbrev pub std_ops : ExpOps
std_ops = record { exp_sort = sort; exp_compact = compact; exp_equal = equal; exp_keys = λ l. l }
