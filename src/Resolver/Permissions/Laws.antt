-- ===== src/Resolver/Permissions/Laws.antt =====
-- The resolved permissions: each list of IDs is ascending, and holds exactly the IDs of the names.
use paperminer.Base.{ℕ, ◌≡◌, ◌∙◌, ap, subst, String, List, [], ◌∷◌, ◌++◌, contains, IsAscending}
use mathlib.Core.Path.{subst₂}
use mathlib.Core.List.{append-nil, append_assoc}
use paperminer.Errors.{wrap}
use paperminer.Io.{ok, or_wrap}
use paperminer.Io.Laws.{>>=-eq_ok, or_wrap-eq_ok, result_of, state_of}
use paperminer.Paperless.{Object}
use paperminer.Slices.{sort, compact}
use paperminer.Slices.Laws.{compact-sort, contains-sort, contains-compact}
use paperminer.Resolver.{Resolver, get_by_name}
use paperminer.Resolver.Lookup.{Resolves}
use paperminer.Resolver.Permissions.{
  ObjectPermissionPrincipals, ObjectPermissions, NamedObjectPermissionPrincipals,
  NamedObjectPermissions, resolve_ids, resolve_principals, resolve_permissions,
}

-- The ascending list of the IDs of the names.
pub record IsResolved {W : Type 0} (r : Resolver W Object) (names : List String) (ids : List ℕ)
    (s u : W) : Type 0 where
  pub found : List ℕ
  pub resolves : Resolves (get_by_name r) names found s u
  pub ascending : IsAscending ids
  pub same : (a : ℕ) → contains ids a ≡ contains found a

pub record IsGranted {W : Type 0} (user_resolver group_resolver : Resolver W Object)
    (src : NamedObjectPermissionPrincipals) (p : ObjectPermissionPrincipals) (s u : W)
    : Type 0 where
  pub between : W
  pub users : IsResolved user_resolver src.users p.users s between
  pub groups : IsResolved group_resolver src.groups p.groups between u

module _ {W : Type 0} (r : Resolver W Object) (what : String) where
  resolve_ids-eq_ok :
      (names : List String) (acc ids : List ℕ) (s u : W)
      → resolve_ids what r names acc s ≡ (ok ids, u)
      → (new : List ℕ) × (ids ≡ acc ++ new) × Resolves (get_by_name r) names new s u
  unfolding resolve_ids
  resolve_ids-eq_ok [] acc ids s u h =
      ([], cc (append-nil acc, result_of h), Resolves.nil (state_of h))
  resolve_ids-eq_ok (name ∷ names) acc ids s u h =
      let (obj, t, first, rest) =
        >>=-eq_ok (or_wrap (wrap what) (get_by_name r name))
          (λ obj. resolve_ids what r names (acc ++ (obj.id ∷ []))) s u ids h in
      let (new, e, resolves) = resolve_ids-eq_ok names (acc ++ (obj.id ∷ [])) ids t u rest in
      (
        obj.id ∷ new,
        e ∙ append_assoc acc (obj.id ∷ []) new,
        Resolves.cons (or_wrap-eq_ok (wrap what) (get_by_name r name) s t obj first) resolves,
      )

module _ {W : Type 0} where
  compacted :
      (r : Resolver W Object) (what : String) (names : List String) (ids : List ℕ) (s u : W)
      → resolve_ids what r names [] s ≡ (ok ids, u)
      → IsResolved r names (compact (sort ids)) s u
  compacted r what names ids s u h =
      let (new, e, resolves) = resolve_ids-eq_ok r what names [] ids s u h in
      record {
        found = new;
        resolves = resolves;
        ascending = compact-sort ids;
        same = λ a. contains-compact (sort ids) a ∙ contains-sort ids a ∙ ap (λ l. contains l a) e;
      }

module _ {W : Type 0} (ur gr : Resolver W Object) where
  resolve_principals-eq_ok :
      (src : NamedObjectPermissionPrincipals) (p : ObjectPermissionPrincipals) (s u : W)
      → resolve_principals ur gr src s ≡ (ok p, u)
      → IsGranted ur gr src p s u
  unfolding resolve_principals
  resolve_principals-eq_ok src p s u h =
      let (users, t, hu, rest) = >>=-eq_ok (resolve_ids "getting user" ur src.users []) _ s u p h in
      let (groups, v, hg, last) =
        >>=-eq_ok (resolve_ids "getting group" gr src.groups []) _ t u p rest in
      let e : v ≡ u = state_of last in
      subst₂ (λ q w. IsGranted ur gr src q s w) (cc (result_of last)) e
        (record {
          between = t;
          users = compacted ur "getting user" src.users users s t hu;
          groups = compacted gr "getting group" src.groups groups t v hg;
        })

  -- On success every one of the four lists is the ascending list of the IDs of its names, which
  -- were looked up in the order view users, view groups, change users, change groups.
  pub resolve_permissions-eq_ok :
      (p : NamedObjectPermissions) (perm : ObjectPermissions) (s u : W)
      → resolve_permissions p ur gr s ≡ (ok perm, u)
      → (t : W) × IsGranted ur gr p.view perm.view s t × IsGranted ur gr p.change perm.change t u
  unfolding resolve_permissions
  resolve_permissions-eq_ok p perm s u h =
      let (view, t, hv, rest) = >>=-eq_ok (resolve_principals ur gr p.view) _ s u perm h in
      let (change, v, hc, last) = >>=-eq_ok (resolve_principals ur gr p.change) _ t u perm rest in
      let e : ◌≡◌ {A = ObjectPermissions} (record { view = view; change = change }) perm =
        cc (result_of last) in
      (
        t,
        subst (λ q. IsGranted ur gr p.view q.view s t) e
            (resolve_principals-eq_ok p.view view s t hv),
        subst₂ (λ (q : ObjectPermissions) w. IsGranted ur gr p.change q.change t w) e
            (state_of last) (resolve_principals-eq_ok p.change change t v hc),
      )
