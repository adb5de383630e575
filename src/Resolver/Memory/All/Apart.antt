-- ===== src/Resolver/Memory/All/Apart.antt =====
-- The in-memory resolvers of `NewMemObjectResolvers` beside resolvers that stand alone.
use paperminer.Base.{◌≡◌, refl, String, Option-cases, inl, inr, eq_refl}
use paperminer.Paperless.{Object}
use paperminer.Resolver.{Resolver, get_or_create_by_name}
use paperminer.Resolver.Memory.{MemState, find, new_mem_resolver}
use paperminer.Resolver.Memory.Laws.{find-insert}
use paperminer.Resolver.Memory.All.{
  MemObjects, Place, within, placed_resolver, new_mem_object_resolvers, new_mem_user_resolver,
}
use paperminer.Resolver.Providers.{ObjectResolvers}

pub data ObjectType : Type 0 where
  user : ObjectType
  group : ObjectType
  tag : ObjectType
  correspondent : ObjectType
  document_type : ObjectType
  storage_path : ObjectType

abbrev pub resolver_of : {W : Type 0} → ObjectType → ObjectResolvers W → Resolver W Object
resolver_of user r = r.user
resolver_of group r = r.group
resolver_of tag r = r.tag
resolver_of correspondent r = r.correspondent
resolver_of document_type r = r.document_type
resolver_of storage_path r = r.storage_path

module _ (at : Place) (get_put : (t : MemState) (s : MemObjects) → at.get (at.put t s) ≡ t)
    (put_get : (s : MemObjects) → at.put (at.get s) s ≡ s)
    (put_put : (t u : MemState) (s : MemObjects) → at.put u (at.put t s) ≡ at.put u s) where
  -- A placed resolver does what one of its own does, in its place.
  get_or_create_by_name-placed :
      (type_name name : String) (s : MemObjects)
      → let r = placed_resolver at type_name in
        get_or_create_by_name r name s
        ≡ within at (get_or_create_by_name (new_mem_resolver r.kind) name) s
  unfolding placed_resolver new_mem_resolver get_or_create_by_name
  get_or_create_by_name-placed type_name name s =
      elim (Option-cases (find name (at.get s).objects)) [
        | inl missing ↦ rw missing (simp (put_get, get_put, put_put, missing, find-insert, eq_refl))
        | inr (v, found) ↦ rw found refl
      ]

-- The memory of one kind of object, and the memories with that one replaced.
abbrev pub memory_of : ObjectType → MemObjects → MemState
memory_of user s = s.mem_user
memory_of group s = s.mem_group
memory_of tag s = s.mem_tag
memory_of correspondent s = s.mem_correspondent
memory_of document_type s = s.mem_document_type
memory_of storage_path s = s.mem_storage_path

abbrev pub with_memory : ObjectType → MemState → MemObjects → MemObjects
with_memory user m s = record s { mem_user = m }
with_memory group m s = record s { mem_group = m }
with_memory tag m s = record s { mem_tag = m }
with_memory correspondent m s = record s { mem_correspondent = m }
with_memory document_type m s = record s { mem_document_type = m }
with_memory storage_path m s = record s { mem_storage_path = m }

-- `GetOrCreateByName` of each of the resolvers of `NewMemObjectResolvers` returns what it returns of an
-- in-memory resolver that stands alone with the same objects, leaves the same in its own memory, and
-- changes no memory of another kind of object.
pub new_mem_object_resolvers_apart :
    (k : ObjectType) (name : String) (s : MemObjects)
    → let r = resolver_of k new_mem_object_resolvers in
      let (found, m) = get_or_create_by_name (new_mem_resolver r.kind) name (memory_of k s) in
      get_or_create_by_name r name s ≡ (found, with_memory k m s)
unfolding new_mem_object_resolvers new_mem_user_resolver within
new_mem_object_resolvers_apart user name s =
    get_or_create_by_name-placed (record { get = memory_of user; put = with_memory user })
      (λ t s. refl) (λ s. refl) (λ t u s. refl) "User" name s
new_mem_object_resolvers_apart group name s =
    get_or_create_by_name-placed (record { get = memory_of group; put = with_memory group })
      (λ t s. refl) (λ s. refl) (λ t u s. refl) "Group" name s
new_mem_object_resolvers_apart tag name s =
    get_or_create_by_name-placed (record { get = memory_of tag; put = with_memory tag })
      (λ t s. refl) (λ s. refl) (λ t u s. refl) "Tag" name s
new_mem_object_resolvers_apart correspondent name s =
    get_or_create_by_name-placed
      (record { get = memory_of correspondent; put = with_memory correspondent }) (λ t s. refl)
      (λ s. refl) (λ t u s. refl) "Correspondent" name s
new_mem_object_resolvers_apart document_type name s =
    get_or_create_by_name-placed
      (record { get = memory_of document_type; put = with_memory document_type }) (λ t s. refl)
      (λ s. refl) (λ t u s. refl) "DocumentType" name s
new_mem_object_resolvers_apart storage_path name s =
    get_or_create_by_name-placed
      (record { get = memory_of storage_path; put = with_memory storage_path }) (λ t s. refl)
      (λ s. refl) (λ t u s. refl) "StoragePath" name s
