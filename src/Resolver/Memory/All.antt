-- ===== src/Resolver/Memory/All.antt =====
-- `NewMemObjectResolvers` of internal/objectresolver/all.go: one in-memory resolver for each kind of
-- object, with a state of its own.
pub mod Apart
use Prim.Native.String.{◌++◌ as ◌<>◌}
use paperminer.Base.{String}
use paperminer.Io.{Io}
use paperminer.Paperless.{Object}
use paperminer.Resolver.{Resolver, new_resolver}
use paperminer.Resolver.Memory.{MemState, create, list_by_name}
use paperminer.Resolver.Providers.{ObjectResolvers}

pub record MemObjects : Type 0 where
  pub mem_user : MemState
  pub mem_group : MemState
  pub mem_tag : MemState
  pub mem_correspondent : MemState
  pub mem_document_type : MemState
  pub mem_storage_path : MemState

-- Where one resolver has its state among the others'.
pub record Place : Type 0 where
  pub get : MemObjects → MemState
  pub put : MemState → MemObjects → MemObjects

-- A call on the state of one resolver.
unfoldable pub within : {A : Type 0} → Place → Io MemState A → Io MemObjects A
within at m s = let (r, t) = m (at.get s) in (r, at.put t s)

-- `reflect.TypeOf(p).Elem().Name()` for a type of the client library.
mem_kind : String → String
mem_kind type_name = "memProvider[github.com/hansmi/paperhooks/pkg/client." <> type_name <> "]"

-- `newMemResolver` for a type, with a call of `Do` that runs alone.
unfoldable pub placed_resolver : Place → String → Resolver MemObjects Object
unfolding within create list_by_name new_resolver mem_kind
placed_resolver at type_name =
    new_resolver (λ key m. m)
      (record {
        kind = mem_kind type_name;
        create = λ name. within at (create name);
        list_by_name = λ name. within at (list_by_name name);
      })

unfoldable pub new_mem_user_resolver : Resolver MemObjects Object
unfolding placed_resolver
new_mem_user_resolver =
    placed_resolver (record { get = λ s. s.mem_user; put = λ t s. record s { mem_user = t } })
      "User"

unfoldable pub new_mem_group_resolver : Resolver MemObjects Object
unfolding placed_resolver
new_mem_group_resolver =
    placed_resolver (record { get = λ s. s.mem_group; put = λ t s. record s { mem_group = t } })
      "Group"

unfoldable pub new_mem_tag_resolver : Resolver MemObjects Object
unfolding placed_resolver
new_mem_tag_resolver =
    placed_resolver (record { get = λ s. s.mem_tag; put = λ t s. record s { mem_tag = t } }) "Tag"

unfoldable pub new_mem_correspondent_resolver : Resolver MemObjects Object
unfolding placed_resolver
new_mem_correspondent_resolver =
    placed_resolver
      (record { get = λ s. s.mem_correspondent; put = λ t s. record s { mem_correspondent = t } })
      "Correspondent"

unfoldable pub new_mem_document_type_resolver : Resolver MemObjects Object
unfolding placed_resolver
new_mem_document_type_resolver =
    placed_resolver
      (record { get = λ s. s.mem_document_type; put = λ t s. record s { mem_document_type = t } })
      "DocumentType"

unfoldable pub new_mem_storage_path_resolver : Resolver MemObjects Object
unfolding placed_resolver
new_mem_storage_path_resolver =
    placed_resolver
      (record { get = λ s. s.mem_storage_path; put = λ t s. record s { mem_storage_path = t } })
      "StoragePath"

unfoldable pub new_mem_object_resolvers : ObjectResolvers MemObjects
unfolding new_mem_user_resolver new_mem_group_resolver new_mem_tag_resolver
    new_mem_correspondent_resolver new_mem_document_type_resolver new_mem_storage_path_resolver
new_mem_object_resolvers = record {
  user = new_mem_user_resolver;
  group = new_mem_group_resolver;
  tag = new_mem_tag_resolver;
  correspondent = new_mem_correspondent_resolver;
  document_type = new_mem_document_type_resolver;
  storage_path = new_mem_storage_path_resolver;
}
