-- ===== src/Resolver.antt =====
-- internal/objectresolver/resolver.go: objects of the server are looked up by name, and created on
-- demand. The proofs are in `Lookup`, the in-memory provider in `Memory`.
pub mod Flight
pub mod Lookup
pub mod Memory
pub mod Permissions
pub mod Providers
use paperminer.Base.{String, ◌≡◌, List, [], ◌∷◌, if◌then◌else◌}
use paperminer.Errors.{Err, wrap, detail, not_found, ambiguous, is_error}
use paperminer.Io.{Io, Result, ok, err, pure, fail, lift, ◌>>=◌, ◌>>◌, or_wrap}

pub record Provider (W T : Type 0) : Type 0 where
  pub kind : String
  pub create : String → Io W (Unit {0})
  pub list_by_name : String → Io W (List T)

-- The field `do_once` is the method `Do` of golang.org/x/sync/singleflight: it makes the call for a
-- key, or waits for one that another goroutine is making and hands its result over.
pub record Resolver (W T : Type 0) : Type 0 where
  pub kind : String
  pub do_once : String → Io W T → Io W T
  pub p : Provider W T

module _ {W T : Type 0} where
  unfoldable pub new_resolver : (String → Io W T → Io W T) → Provider W T → Resolver W T
  new_resolver flight p = record { kind = p.kind; do_once = flight; p = p }

  -- No other goroutine is resolving the name: `Do` makes the call itself.
  abbrev pub Leads : Resolver W T → String → Type 0
  Leads r key = (m : Io W T) (s : W) → r.do_once key m s ≡ m s

  -- Another goroutine is making the call `m'` for the key: `Do` hands its result over, whatever the
  -- call that it was given.
  abbrev pub Joins : Resolver W T → String → Io W T → Type 0
  Joins r key m' = (m : Io W T) (s : W) → r.do_once key m s ≡ m' s

  module _ (r : Resolver W T) where
    unfoldable pub once : String → Io W T → Io W T
    once key fn = r.do_once key fn

    unfoldable pub get_first : String → List T → Result T
    get_first name [] = err (detail not_found r.kind)
    get_first name (obj ∷ []) = ok obj
    get_first name (obj ∷ other ∷ rest) = err (detail ambiguous r.kind)

    unfoldable pub look_up : String → Io W T
    look_up name = do objs ← r.p.list_by_name name; lift (get_first name objs)

    unfoldable pub get_by_name : String → Io W T
    unfolding once look_up get_first
    get_by_name name = once name (look_up name)

    -- `if errors.Is(err, ErrNotFound) { … }` and what follows it.
    unfoldable pub create_missing : String → Result T → Io W T
    create_missing name (ok obj) = pure obj
    create_missing name (err e) =
        if is_error e not_found
        then (do
          or_wrap (wrap "creating") (r.p.create name)
          or_wrap (wrap "getting") (look_up name))
        else fail (wrap "getting" e)

    unfoldable pub get_or_create_by_name : String → Io W T
    unfolding once look_up get_first create_missing
    get_or_create_by_name name =
        once name (λ s. let (found, s') = look_up name s in create_missing name found s')
