-- ===== src/Resolver/Providers.antt =====
-- The providers over the Paperless server (tag.go, correspondent.go, documenttype.go,
-- storagepath.go, group.go and user.go of internal/objectresolver), and the second half of all.go,
-- which sets all resolvers up.
pub mod Laws
use paperminer.Base.{String, some, List, [], ◌∷◌}
use paperminer.Errors.{sentinel, create_unsupported}
use paperminer.Io.{Io, pure, fail, ◌>>=◌, ◌>>◌}
use paperminer.Paperless.{Object}
use paperminer.Resolver.{Provider, Resolver, new_resolver}
use paperminer.Resolver.Permissions.{
  ObjectSetting, set_name, set_matching_none, PermissionOptions, apply, NamedObjectPermissions,
  resolve_owner, resolve_permissions,
}

-- The list calls are made with `Name.EqualsIgnoringCase` (users: `Username`) set to the argument.
pub record ListClient (W : Type 0) : Type 0 where
  pub list : String → Io W (List Object)

pub record CreateClient (W : Type 0) : Type 0 where
  pub list : String → Io W (List Object)
  pub create : List ObjectSetting → Io W Object

pub record ObjectResolverClient (W : Type 0) : Type 0 where
  pub get_current_user : Io W Object
  pub user_client : ListClient W
  pub group_client : ListClient W
  pub tag_client : CreateClient W
  pub correspondent_client : CreateClient W
  pub document_type_client : CreateClient W
  pub storage_path_client : ListClient W

pub record ObjectResolvers (W : Type 0) : Type 0 where
  pub user : Resolver W Object
  pub group : Resolver W Object
  pub tag : Resolver W Object
  pub correspondent : Resolver W Object
  pub document_type : Resolver W Object
  pub storage_path : Resolver W Object

module _ {W : Type 0} where
  unfoldable pub tag_provider : PermissionOptions → CreateClient W → Provider W Object
  tag_provider o c = record {
    kind = "tag";
    create = λ name. (do c.create (apply o (set_name name ∷ set_matching_none ∷ [])); pure tt);
    list_by_name = λ name. c.list name;
  }

  unfoldable pub correspondent_provider : PermissionOptions → CreateClient W → Provider W Object
  correspondent_provider o c = record {
    kind = "correspondent";
    create = λ name. (do c.create (apply o (set_name name ∷ set_matching_none ∷ [])); pure tt);
    list_by_name = λ name. c.list name;
  }

  unfoldable pub document_type_provider : PermissionOptions → CreateClient W → Provider W Object
  document_type_provider o c = record {
    kind = "document type";
    create = λ name. (do c.create (apply o (set_name name ∷ set_matching_none ∷ [])); pure tt);
    list_by_name = λ name. c.list name;
  }

  unfoldable pub storage_path_provider : ListClient W → Provider W Object
  storage_path_provider c = record {
    kind = "storagePath";
    create = λ name. fail (sentinel create_unsupported);
    list_by_name = λ name. c.list name;
  }

  unfoldable pub group_provider : ListClient W → Provider W Object
  group_provider c = record {
    kind = "group";
    create = λ name. fail (sentinel create_unsupported);
    list_by_name = λ name. c.list name;
  }

  unfoldable pub user_provider : ListClient W → Provider W Object
  user_provider c = record {
    kind = "user";
    create = λ name. fail (sentinel create_unsupported);
    list_by_name = λ name. c.list name;
  }

  -- `flight kind` is the singleflight group of the resolver of that kind.
  unfoldable pub new_object_resolvers :
      (String → String → Io W Object → Io W Object)
      → ObjectResolverClient W
      → NamedObjectPermissions
      → Io W (ObjectResolvers W)
  new_object_resolvers flight cl default_perm = do
    let user_resolver = new_resolver (flight "user") (user_provider cl.user_client)
    let group_resolver = new_resolver (flight "group") (group_provider cl.group_client)
    owner ← resolve_owner default_perm cl.get_current_user user_resolver
    perm ← resolve_permissions default_perm user_resolver group_resolver
    let o : PermissionOptions = record {
      default_owner = some owner;
      default_permissions = some perm;
    }
    pure (record {
      user = user_resolver;
      group = group_resolver;
      tag = new_resolver (flight "tag") (tag_provider o cl.tag_client);
      correspondent =
          new_resolver (flight "correspondent") (correspondent_provider o cl.correspondent_client);
      document_type =
          new_resolver (flight "document type") (document_type_provider o cl.document_type_client);
      storage_path =
          new_resolver (flight "storagePath") (storage_path_provider cl.storage_path_client);
    })
