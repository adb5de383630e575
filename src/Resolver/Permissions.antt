-- ===== src/Resolver/Permissions.antt =====
-- internal/objectresolver/permissions.go and the first half of internal/objectresolver/all.go: the
-- owner and the permissions that newly created objects get.
pub mod Laws
use paperminer.Base.{ℕ, String, Option, none, some, List, [], ◌∷◌, ◌++◌, str_eq, if◌then◌else◌}
use paperminer.Errors.{wrap}
use paperminer.Io.{Io, pure, ◌>>=◌, or_wrap}
use paperminer.Paperless.{Object}
use paperminer.Slices.{sort, compact}
use paperminer.Resolver.{Resolver, get_by_name}

-- `plclient.ObjectPermissionPrincipals` and `plclient.ObjectPermissions`.
pub record ObjectPermissionPrincipals : Type 0 where
  pub users : List ℕ
  pub groups : List ℕ

pub record ObjectPermissions : Type 0 where
  pub view : ObjectPermissionPrincipals
  pub change : ObjectPermissionPrincipals

-- The calls that the program makes on a `TagFields`, `CorrespondentFields` or `DocumentTypeFields`.
pub data ObjectSetting : Type 0 where
  set_name : String → ObjectSetting
  set_matching_none : ObjectSetting
  set_owner : ℕ → ObjectSetting
  set_set_permissions : ObjectPermissions → ObjectSetting

pub record PermissionOptions : Type 0 where
  pub default_owner : Option ℕ
  pub default_permissions : Option ObjectPermissions

owner_settings : Option ℕ → List ObjectSetting
owner_settings none = []
owner_settings (some id) = set_owner id ∷ []

permission_settings : Option ObjectPermissions → List ObjectSetting
permission_settings none = []
permission_settings (some p) = set_set_permissions p ∷ []

-- `PermissionOptions.apply` on fields with settings of their own.
unfoldable pub apply : PermissionOptions → List ObjectSetting → List ObjectSetting
unfolding owner_settings permission_settings
apply o fields =
    (fields ++ owner_settings o.default_owner) ++ permission_settings o.default_permissions

pub record NamedObjectPermissionPrincipals : Type 0 where
  pub users : List String
  pub groups : List String

pub record NamedObjectPermissions : Type 0 where
  pub owner : String
  pub view : NamedObjectPermissionPrincipals
  pub change : NamedObjectPermissionPrincipals

module _ {W : Type 0} where
  -- `get_current_user` is the client's `GetCurrentUser`.
  unfoldable pub resolve_owner : NamedObjectPermissions → Io W Object → Resolver W Object → Io W ℕ
  resolve_owner p get_current_user user_resolver =
      if str_eq p.owner ""
      then (do user ← or_wrap (wrap "getting current user") get_current_user; pure user.id)
      else (do
        user ← or_wrap (wrap "getting owner user") (get_by_name user_resolver p.owner)
        pure user.id)

  -- One of the two loops over names, with the IDs that were appended so far.
  unfoldable pub resolve_ids : String → Resolver W Object → List String → List ℕ → Io W (List ℕ)
  resolve_ids what resolver [] ids = pure ids
  resolve_ids what resolver (name ∷ names) ids = do
    obj ← or_wrap (wrap what) (get_by_name resolver name)
    resolve_ids what resolver names (ids ++ (obj.id ∷ []))

  unfoldable pub resolve_principals :
      Resolver W Object
      → Resolver W Object
      → NamedObjectPermissionPrincipals
      → Io W ObjectPermissionPrincipals
  resolve_principals user_resolver group_resolver src = do
    users ← resolve_ids "getting user" user_resolver src.users []
    groups ← resolve_ids "getting group" group_resolver src.groups []
    pure (record { users = compact (sort users); groups = compact (sort groups) })

  unfoldable pub resolve_permissions :
      NamedObjectPermissions → Resolver W Object → Resolver W Object → Io W ObjectPermissions
  resolve_permissions p user_resolver group_resolver = do
    view ← resolve_principals user_resolver group_resolver p.view
    change ← resolve_principals user_resolver group_resolver p.change
    pure (record { view = view; change = change })
