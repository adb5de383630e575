-- ===== src/Tests/Resolving.antt =====
-- Objects that are looked up and created, in memory and on a server.
use paperminer.Base.{ℕ, ◌≡◌, ◌≢◌, refl, ap, String, true, false, some, [], ◌∷◌, arith, eq_iff}
use paperminer.Errors.{detail, not_found}
use paperminer.Io.{Io, ok, err}
use paperminer.Paperless.{Object}
use paperminer.Slices.{sort, compact}
use paperminer.Resolver.{
  look_up, get_first, Resolver, new_resolver, get_by_name, get_or_create_by_name,
}
use paperminer.Resolver.Lookup.{get_or_create_by_name_joined}
use paperminer.Resolver.Memory.{MemState, new_mem_state, new_mem_resolver}
use paperminer.Resolver.Memory.All.{MemObjects}
use paperminer.Resolver.Permissions.{
  PermissionOptions, NamedObjectPermissions, ObjectPermissions, resolve_permissions,
}
use paperminer.Resolver.Permissions.Laws.{IsGranted, resolve_permissions-eq_ok}
use paperminer.Resolver.Providers.{
  ObjectResolverClient, ObjectResolvers, tag_provider, correspondent_provider,
  document_type_provider, user_provider, group_provider, storage_path_provider,
}
use paperminer.Tests.World.{World, start, two_objects, by_name}

abbrev fresh : MemState
fresh = new_mem_state 5

abbrev first : MemState
first = record { objects = ("a", record { id = 1006; name = "a" }) ∷ []; id = 1006 }

abbrev resolver : Resolver MemState Object
resolver = new_mem_resolver "tag"

created : (get_or_create_by_name resolver "a" fresh).1 ≢ fresh
unfolding get_or_create_by_name new_mem_resolver new_mem_state paperminer.Resolver.Memory.find
created e = let grown : ◌≡◌ {A = ℕ} 1006 1005 = ap (λ (m : MemState). m.id) e in omega arith

names_differ : ◌≢◌ {A = String} "a" "b"
names_differ e = let same : false ≡ true = (eq_iff "a" "b").1 e in cc same

-- Every call joins one that did not find the name.
abbrev joining : Resolver World Object
joining = record {
  kind = "tag";
  do_once = λ key m w. (err (detail not_found "tag"), w);
  p = record { kind = "tag"; create = λ name w. (ok tt, w); list_by_name = λ name w. (ok [], w) };
}

get_or_create_by_name_joined_example :
    get_or_create_by_name joining "a" start ≡ (err (detail not_found "tag"), start)
unfolding look_up get_first get_by_name
get_or_create_by_name_joined_example =
    get_or_create_by_name_joined joining "a" "a" (look_up joining "a") start start (λ flight. refl)
      (λ m s. refl) refl

abbrev permissions : NamedObjectPermissions
permissions = record {
  owner = "";
  view = record { users = "todo" ∷ "other" ∷ []; groups = [] };
  change = record { users = "todo" ∷ "todo" ∷ []; groups = "todo" ∷ [] };
}

abbrev granted : ObjectPermissions
granted = record {
  view = record { users = 1 ∷ 2 ∷ []; groups = [] };
  change = record { users = 1 ∷ []; groups = 1 ∷ [] };
}

resolve_permissions-eq_ok_example :
    (t : World) × IsGranted two_objects two_objects permissions.view granted.view start t
    × IsGranted two_objects two_objects permissions.change granted.change t start
unfolding resolve_permissions paperminer.Resolver.Permissions.resolve_principals
    paperminer.Resolver.Permissions.resolve_ids get_by_name compact sort
resolve_permissions-eq_ok_example =
    resolve_permissions-eq_ok two_objects two_objects permissions granted start start refl

abbrev server : ObjectResolverClient World
server = record {
  get_current_user = λ w. (ok (record { id = 3; name = "admin" }), w);
  user_client = record { list = by_name };
  group_client = record { list = by_name };
  tag_client = record { list = by_name; create = λ l w. (ok (record { id = 9; name = "new" }), w) };
  correspondent_client = record {
    list = by_name;
    create = λ l w. (ok (record { id = 9; name = "new" }), w);
  };
  document_type_client = record {
    list = by_name;
    create = λ l w. (ok (record { id = 9; name = "new" }), w);
  };
  storage_path_client = record { list = by_name };
}

abbrev granting : PermissionOptions
granting = record { default_owner = some 3; default_permissions = some granted }

abbrev alone : String → String → Io World Object → Io World Object
alone kind key m = m

abbrev server_resolvers : ObjectResolvers World
server_resolvers = record {
  user = new_resolver (alone "user") (user_provider server.user_client);
  group = new_resolver (alone "group") (group_provider server.group_client);
  tag = new_resolver (alone "tag") (tag_provider granting server.tag_client);
  correspondent =
      new_resolver (alone "correspondent")
        (correspondent_provider granting server.correspondent_client);
  document_type =
      new_resolver (alone "document type")
        (document_type_provider granting server.document_type_client);
  storage_path =
      new_resolver (alone "storagePath") (storage_path_provider server.storage_path_client);
}

abbrev memories : MemObjects
memories = record {
  mem_user = fresh;
  mem_group = fresh;
  mem_tag = fresh;
  mem_correspondent = first;
  mem_document_type = fresh;
  mem_storage_path = fresh;
}
