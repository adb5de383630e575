-- ===== src/Io/Laws.antt =====
-- Inversion: what a block that returned a value did.
use paperminer.Base.{◌≡◌, refl, ap, subst}
use paperminer.Errors.{Err}
use paperminer.Io.{Io, Result, ok, err, continue, ◌>>=◌, map_result, or_wrap}

map_result-eq_ok :
    {A : Type 0} (f : Err → Err) (r : Result A) (a : A) → map_result f r ≡ ok a → r ≡ ok a
map_result-eq_ok f (ok b) a h = h
map_result-eq_ok f (err e) a h = cc

module _ {W A : Type 0} where
  pub result_of : {r r' : Result A} {s s' : W} → ◌≡◌ {A = Result A × W} (r, s) (r', s') → r ≡ r'
  result_of e = ap (λ (p : Result A × W). p.0) e

  pub state_of : {r r' : Result A} {s s' : W} → ◌≡◌ {A = Result A × W} (r, s) (r', s') → s ≡ s'
  state_of e = ap (λ (p : Result A × W). p.1) e

  pub or_wrap-eq_ok :
      (f : Err → Err) (m : Io W A) (s s' : W) (a : A)
      → or_wrap f m s ≡ (ok a, s')
      → m s ≡ (ok a, s')
  or_wrap-eq_ok f m s s' a h = inspect (m s) h
    where
      inspect :
          (v : Result A × W)
          → ◌≡◌ {A = Result A × W} (map_result f v.0, v.1) (ok a, s')
          → v ≡ (ok a, s')
      inspect (r, t) e = cc (map_result-eq_ok f r a (result_of e), state_of e)

module _ {W A B : Type 0} where
  continue-eq_ok :
      (f : A → Io W B) (r : Result A) (s s' : W) (b : B)
      → continue f r s ≡ (ok b, s')
      → (a : A) × (r ≡ ok a) × (f a s ≡ (ok b, s'))
  continue-eq_ok f (ok a) s s' b h = (a, refl, h)
  continue-eq_ok f (err e) s s' b h = absurd (cc (result_of h))

  pub >>=-eq_ok :
      (m : Io W A) (f : A → Io W B) (s s' : W) (b : B)
      → (m >>= f) s ≡ (ok b, s')
      → (a : A) × (t : W) × (m s ≡ (ok a, t)) × (f a t ≡ (ok b, s'))
  >>=-eq_ok m f s s' b h = inspect (m s) refl
    where
      inspect :
          (v : Result A × W)
          → m s ≡ v
          → (a : A) × (t : W) × (m s ≡ (ok a, t)) × (f a t ≡ (ok b, s'))
      inspect (r, t) e =
          let p = continue-eq_ok f r t s' b (subst (λ v. continue f v.0 v.1 ≡ (ok b, s')) e h) in
          (p.0, t, cc (p.1), p.2)

pub ok_injective : {A : Type 0} {a b : A} → ◌≡◌ {A = Result A} (ok a) (ok b) → a ≡ b
ok_injective h = cc
