-- ===== src/Io.antt =====
-- Code that calls out of the program: it takes the state of what it calls (server, database, clock)
-- and returns a value or an error beside the state after the calls.
pub mod Laws
use paperminer.Errors.{Err}

pub data Result {ℓ} (A : Type ℓ) : Type ℓ where
  ok : A → Result A
  err : Err → Result A

abbrev pub Io : Type 0 → Type 0 → Type 0
Io W A = W → Result A × W

module _ {W A : Type 0} where
  abbrev pub pure : A → Io W A
  pure a s = (ok a, s)

  abbrev pub fail : Err → Io W A
  fail e s = (err e, s)

  abbrev pub lift : Result A → Io W A
  lift r s = (r, s)

-- What follows a call, by its result; an error ends the block.
abbrev pub continue {ℓ} : {W A B : Type ℓ} → (A → W → Result B × W) → Result A → W → Result B × W
continue f (ok a) s = f a s
continue f (err e) s = (err e, s)

module _ {W A B : Type 0} where
  infixl 5 ◌>>=◌ ◌>>◌
  abbrev pub ◌>>=◌ : Io W A → (A → Io W B) → Io W B
  ◌>>=◌ m f s = let (r, s') = m s in continue f r s'

  abbrev pub ◌>>◌ : Io W A → Io W B → Io W B
  m >> k = m >>= λ _. k

abbrev pub map_result {ℓ} : {A : Type ℓ} → (Err → Err) → Result A → Result A
map_result f (ok a) = ok a
map_result f (err e) = err (f e)

module _ {W A : Type 0} where
  -- `if err != nil { return fmt.Errorf("…: %w", err) }`.
  abbrev pub or_wrap : (Err → Err) → Io W A → Io W A
  or_wrap f m s = let (r, s') = m s in (map_result f r, s')
