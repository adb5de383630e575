-- ===== src/Resolver/Flight.antt =====
-- Goroutines that resolve names at the same time (`once`, `GetByName` and `GetOrCreateByName` of
-- internal/objectresolver/resolver.go), as a step relation. At any time one call of `Do` of
-- golang.org/x/sync/singleflight is in flight for a key: the goroutines that join it wait, and make
-- no calls of their own.
pub mod Unique
use paperminer.Base.{
  ℕ, zero, suc, ◌+◌, ◌≤◌, ◌≡◌, refl, sym, ap, subst, arith, ◌⊎◌, inl, inr, String, Bool, true,
  false, Bool-cases, List, [], ◌∷◌, length, str_eq, eq_iff, if◌then◌else◌,
}
use paperminer.Errors.{Err, not_found, is_error}
use paperminer.Io.{Result, ok, err}
use paperminer.Resolver.{Resolver, get_first}

-- The objects that the server lists for a name, and the effect of creating one.
pub record Server (W T : Type 0) : Type 0 where
  pub holds : String → W → List T
  pub add : String → W → W

-- Creating makes one object that is listed for the name, and is not listed for a name that is not the
-- same: listings are asked for by `Name.EqualsIgnoringCase`, which is `same`.
pub record IsServer {W T : Type 0} (sv : Server W T) (same : String → String → Bool) : Type 0 where
  pub one_more :
      (name : String) (w : W)
      → length (sv.holds name (sv.add name w)) ≡ suc (length (sv.holds name w))
  pub others :
      (name other : String) (w : W)
      → same other name ≡ false
      → sv.holds other (sv.add name w) ≡ sv.holds other w

-- What the call in flight for a name does next: there is none; the listing of `GetByName`; or the
-- first listing, the creation and the second listing of `GetOrCreateByName`.
pub data Stage : Type 0 where
  landed reading looking creating looking_again : Stage

pub record Flights (W : Type 0) : Type 0 where
  pub stage : String → Stage
  pub state : W

abbrev pub put : String → Stage → (String → Stage) → String → Stage
put name st f other = if str_eq other name then st else f other

-- `errors.Is(err, ErrNotFound)` after the first listing.
unfoldable pub after_look : {T : Type 0} → Result T → Stage
after_look (ok obj) = landed
after_look (err e) = if is_error e not_found then creating else landed

module _ {W T : Type 0} (sv : Server W T) (r : Resolver W T) where
  -- What `getByName` returns: by the objects of the server, or the error of the request.
  pub data IsAnswer (name : String) (w : W) : Result T → Type 0 where
    answered : IsAnswer name w (get_first r name (sv.holds name w))
    request_failed : {e : Err} → is_error e not_found ≡ false → IsAnswer name w (err e)

module _ {W T : Type 0} (sv : Server W T) (r : Resolver W T) (asked : String → Bool) where
  -- A step of a call for one of the names that are asked for. A creation that fails may have made its object or not.
  pub data FlightStep (s : Flights W) : Flights W → Type 0 where
    starts_reading :
        (name : String)
        → asked name ≡ true
        → s.stage name ≡ landed
        → FlightStep s (record s { stage = put name reading s.stage })
    reads :
        (name : String)
        → asked name ≡ true
        → s.stage name ≡ reading
        → FlightStep s (record s { stage = put name landed s.stage })
    starts_looking :
        (name : String)
        → asked name ≡ true
        → s.stage name ≡ landed
        → FlightStep s (record s { stage = put name looking s.stage })
    looks :
        (name : String) {answer : Result T}
        → asked name ≡ true
        → s.stage name ≡ looking
        → IsAnswer sv r name s.state answer
        → FlightStep s (record s { stage = put name (after_look answer) s.stage })
    creates :
        (name : String)
        → asked name ≡ true
        → s.stage name ≡ creating
        → FlightStep s
            (record { stage = put name looking_again s.stage; state = sv.add name s.state })
    creates_unheard :
        (name : String)
        → asked name ≡ true
        → s.stage name ≡ creating
        → FlightStep s (record { stage = put name landed s.stage; state = sv.add name s.state })
    fails_to_create :
        (name : String)
        → asked name ≡ true
        → s.stage name ≡ creating
        → FlightStep s (record s { stage = put name landed s.stage })
    looks_again :
        (name : String)
        → asked name ≡ true
        → s.stage name ≡ looking_again
        → FlightStep s (record s { stage = put name landed s.stage })

  pub data FlightReach (w : W) : Flights W → Type 0 where
    grounded : FlightReach w (record { stage = λ name. landed; state = w })
    flies : {s t : Flights W} → FlightReach w s → FlightStep s t → FlightReach w t
