-- ===== src/Resolver/Memory.antt =====
-- internal/objectresolver/memprovider.go: a provider that keeps its objects in memory. The mutex
-- makes each method one step on the state; the atomic counter is a field of it.
pub mod All
pub mod Laws
use paperminer.Base.{ℕ, suc, ◌+◌, String, List, [], ◌∷◌, Option, none, some, str_eq, if◌then◌else◌}
use paperminer.Errors.{plain}
use paperminer.Io.{Io, Result, ok, err, pure, fail}
use paperminer.Paperless.{Object}
use paperminer.Resolver.{Provider, Resolver, new_resolver}

abbrev pub mem_provider_min_id : ℕ
mem_provider_min_id = 1000

-- `objects` is the map by name, `id` the last ID that was given out.
pub record MemState : Type 0 where
  pub objects : List (String × Object)
  pub id : ℕ

unfoldable pub find : String → List (String × Object) → Option Object
find name [] = none
find name ((key, v) ∷ rest) = if str_eq key name then some v else find name rest

unfoldable pub insert : String → Object → List (String × Object) → List (String × Object)
insert name v [] = (name, v) ∷ []
insert name v ((key, w) ∷ rest) =
    if str_eq key name then (name, v) ∷ rest else (key, w) ∷ insert name v rest

unfoldable pub set : String → Object → MemState → MemState
set name value s = record s { objects = insert name value s.objects }

-- `createObject` of the resolvers: the next ID, and the name.
unfoldable pub create_object : String → MemState → Object × MemState
create_object name s = (record { id = suc s.id; name = name }, record s { id = suc s.id })

create_absent : String → Option Object → Io MemState (Unit {0})
unfolding set create_object
create_absent name (some v) s = fail (plain "key exists already") s
create_absent name none s = let (v, s') = create_object name s in (ok tt, set name v s')

unfoldable pub create : String → Io MemState (Unit {0})
unfolding create_absent
create name s = create_absent name (find name s.objects) s

listed : Option Object → List Object
listed none = []
listed (some v) = v ∷ []

unfoldable pub list_by_name : String → Io MemState (List Object)
unfolding listed
list_by_name name s = (ok (listed (find name s.objects)), s)

-- `start` is the random offset of the first ID.
unfoldable pub new_mem_state : ℕ → MemState
new_mem_state start = record { objects = []; id = mem_provider_min_id + start }

abbrev pub mem_provider : String → Provider MemState Object
mem_provider kind = record { kind = kind; create = create; list_by_name = list_by_name }

unfoldable pub new_mem_resolver : String → Resolver MemState Object
unfolding create list_by_name new_resolver
new_mem_resolver kind = new_resolver (λ key m. m) (mem_provider kind)
