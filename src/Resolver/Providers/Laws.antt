-- ===== src/Resolver/Providers/Laws.antt =====
-- What the resolvers over the server promise about creating objects.
use paperminer.Base.{ℕ, ◌≡◌, refl, String, [], ◌∷◌}
use mathlib.Core.Path.{subst₂}
use paperminer.Io.{Io, ok, pure, ◌>>◌}
use paperminer.Io.Laws.{>>=-eq_ok, result_of, state_of, ok_injective}
use paperminer.Paperless.{Object}
use paperminer.Resolver.{Resolver, new_resolver}
use paperminer.Resolver.Permissions.{
  ObjectPermissions, set_name, set_matching_none, set_owner, set_set_permissions, apply,
  NamedObjectPermissions, resolve_owner, resolve_permissions,
}
use paperminer.Resolver.Providers.{
  CreateClient, ObjectResolverClient, ObjectResolvers, tag_provider, correspondent_provider,
  document_type_provider, new_object_resolvers,
}

module _ {W : Type 0} where
  -- Creating an object sends its name, no matching algorithm, the owner and the permissions.
  abbrev pub CreatesOwned : CreateClient W → Resolver W Object → ℕ → ObjectPermissions → Type 0
  CreatesOwned c r owner perm =
      (name : String)
      → r.p.create name ≡ (do
        c.create
            (set_name name ∷ set_matching_none ∷ set_owner owner ∷ set_set_permissions perm ∷ [])
        pure tt)

  pub record IsSetUp (cl : ObjectResolverClient W) (p : NamedObjectPermissions) (s : W) (owner : ℕ)
      (perm : ObjectPermissions) (t : W) (rs : ObjectResolvers W) (u : W) : Type 0 where
    pub owner_resolved : resolve_owner p cl.get_current_user rs.user s ≡ (ok owner, t)
    pub permissions_resolved : resolve_permissions p rs.user rs.group t ≡ (ok perm, u)
    pub tags : CreatesOwned cl.tag_client rs.tag owner perm
    pub correspondents : CreatesOwned cl.correspondent_client rs.correspondent owner perm
    pub document_types : CreatesOwned cl.document_type_client rs.document_type owner perm

  -- Once the resolvers are set up, tags, correspondents and document types are created with the
  -- owner and the permissions that the flags name, resolved before anything else was done.
  pub new_object_resolvers-eq_ok :
      (flight : String → String → Io W Object → Io W Object) (cl : ObjectResolverClient W)
      (p : NamedObjectPermissions) (s u : W) (rs : ObjectResolvers W)
      → new_object_resolvers flight cl p s ≡ (ok rs, u)
      → (owner : ℕ) × (perm : ObjectPermissions) × (t : W) × IsSetUp cl p s owner perm t rs u
  unfolding new_object_resolvers tag_provider correspondent_provider document_type_provider
      new_resolver apply
  new_object_resolvers-eq_ok flight cl p s u rs h =
      let (owner, t, ho, rest) = >>=-eq_ok (resolve_owner p cl.get_current_user _) _ s u rs h in
      let (perm, v, hp, last) = >>=-eq_ok (resolve_permissions p _ _) _ t u rs rest in
      subst₂
        (λ (q : ObjectResolvers W) (w : W).
          (owner : ℕ) × (perm : ObjectPermissions) × (t : W) × IsSetUp cl p s owner perm t q w)
        (ok_injective (result_of last)) (state_of last)
        (
          owner,
          perm,
          t,
          record {
            owner_resolved = ho;
            permissions_resolved = hp;
            tags = λ name. refl;
            correspondents = λ name. refl;
            document_types = λ name. refl;
          },
        )
