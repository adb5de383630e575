-- ===== src/Core/Laws.antt =====
-- The start of the program (internal/core/program.go).
use paperminer.Base.{
  ◌≡◌, ◌≢◌, refl, ap, subst, ◌⊎◌, Bool-cases, inl, inr, List, [], ◌∷◌, ◌++◌, if◌then◌else◌,
}
use paperminer.Errors.{Err, early_exit, is_error}
use paperminer.Documents.{joined, with_cleanup}
use paperminer.Io.{Io, Result, ok, err}
use paperminer.Io.Laws.{result_of, state_of, >>=-eq_ok}
use paperminer.Core.{
  Verdict, go_on, early, broken, judge, validate_all, Startup, open_default_store, start,
  serve_with, after_validation, run,
}
use paperminer.Core.Environment.{
  WorkflowEnvBase, available, new_env_base, fill, or_panic, env_store, env_client, env_resolvers,
}
use paperminer.Resolver.Providers.{ObjectResolvers, new_object_resolvers}

module _ {W : Type 0} where
  -- These validations succeed, one after the other.
  pub data Passes : List (Io W (Unit {0})) → W → W → Type 0 where
    none_left : {s : W} → Passes [] s s
    passes :
        {v : Io W (Unit {0})} {vs : List (Io W (Unit {0}))} {s t u : W}
        → v s ≡ (ok tt, t)
        → Passes vs t u
        → Passes (v ∷ vs) s u

  validate_all-stopped :
      (vs rest : List (Io W (Unit {0}))) (v : Io W (Unit {0})) (e : Err) (s t u : W)
      → Passes vs s t
      → v t ≡ (err e, u)
      → validate_all (vs ++ (v ∷ rest)) s ≡ (if is_error e early_exit then early else broken e, u)
  unfolding validate_all judge
  validate_all-stopped [] rest v e s t u none_left h = rw h refl
  validate_all-stopped (w ∷ vs) rest v e s t u (passes h p) fails =
      rw h (validate_all-stopped vs rest v e _ t u p fails)

module _ {W Client Store : Type 0} (p : Startup W Client Store) where
  -- The first workflow that fails validation ends the program: nothing that follows is validated, no
  -- client is made, no store opened and nothing served. An early exit is a success, any other error
  -- is returned as it is.
  pub run_stops :
      (vs rest : List (Io W (Unit {0}))) (v : Io W (Unit {0})) (e : Err) (s t u : W)
      → Passes vs s t
      → v t ≡ (err e, u)
      → run p (vs ++ (v ∷ rest)) s ≡ (if is_error e early_exit then ok tt else err e, u)
  unfolding run after_validation
  run_stops vs rest v e s t u passing fails = elim (Bool-cases (is_error e early_exit)) [
    | inl exits ↦ rw (validate_all-stopped vs rest v e s t u passing fails, exits) refl
    | inr breaks ↦ rw (validate_all-stopped vs rest v e s t u passing fails, breaks) refl
  ]

joined-eq_ok :
    {A : Type 0} (r : Result A) (c : Result (Unit {0})) (a : A)
    → joined r c ≡ ok a
    → (r ≡ ok a) × (c ≡ ok tt)
joined-eq_ok (ok x) (ok u) a h = (h, refl)
joined-eq_ok (ok x) (err e) a h = absurd (cc h)
joined-eq_ok (err e) (ok u) a h = absurd (cc h)
joined-eq_ok (err e) (err f) a h = absurd (cc h)

with_cleanup-eq_ok :
    {W A : Type 0} (cleanup : Io W (Unit {0})) (body : Io W A) (s s' : W) (a : A)
    → with_cleanup cleanup body s ≡ (ok a, s')
    → (t : W) × (body s ≡ (ok a, t)) × (cleanup t ≡ (ok tt, s'))
unfolding with_cleanup
with_cleanup-eq_ok cleanup body s s' a h =
    let t = (body s).1 in
    let (fine, clean) = joined-eq_ok (body s).0 (cleanup t).0 a (result_of h) in
    (t, cc fine, cc (clean, state_of h))

module _ {W : Type 0} where
  judge-go_on :
      (r : Result (Unit {0})) (rest : W → Verdict × W) (s t : W)
      → judge r rest s ≡ (go_on, t)
      → (r ≡ ok tt) × (rest s ≡ (go_on, t))
  unfolding judge
  judge-go_on (ok u) rest s t h = (refl, h)
  judge-go_on (err e) rest s t h = absurd (stops e s t h)
    where
      stops :
          (e : Err) (s t : W)
          → ◌≢◌ {A = Verdict × W} (if is_error e early_exit then early else broken e, s) (go_on, t)
      stops e s t h = elim (Bool-cases (is_error e early_exit)) [
        | inl exits ↦ cc (ap (λ (p : Verdict × W). p.0) (rw exits at h))
        | inr breaks ↦ cc (ap (λ (p : Verdict × W). p.0) (rw breaks at h))
      ]

  validate_all-go_on :
      (vs : List (Io W (Unit {0}))) (s t : W) → validate_all vs s ≡ (go_on, t) → Passes vs s t
  unfolding validate_all
  validate_all-go_on [] s t h =
      subst (λ u. Passes [] s u) (ap (λ (p : Verdict × W). p.1) h) none_left
  validate_all-go_on (v ∷ vs) s t h =
      let (fine, rest) = judge-go_on (v s).0 (validate_all vs) (v s).1 t h in
      passes (cc fine) (validate_all-go_on vs (v s).1 t rest)

module _ {W Client Store : Type 0} (p : Startup W Client Store) where
  -- What `Run` did to get to its end, after all validations: t is the state before, s' after.
  pub record Served (t s' : W) : Type 0 where
    pub client : Client
    pub store : Store
    pub cleanup : Io W (Unit {0})
    pub resolvers : ObjectResolvers W
    pub env : WorkflowEnvBase Store Client (ObjectResolvers W)
    pub after_build : W
    pub after_open : W
    pub before_serve : W
    pub after_group : W
    pub built : p.build t ≡ (ok client, after_build)
    pub was_opened :
        open_default_store p.disk p.store_dir after_build ≡ (ok (store, cleanup), after_open)
    pub resolved :
        new_object_resolvers p.flight (p.api client) p.object_permissions after_open
        ≡ (ok resolvers, before_serve)
    pub has_store : env_store env ≡ available store
    pub has_client : env_client env ≡ available client
    pub has_resolvers : env_resolvers env ≡ available resolvers
    pub served : p.serve env before_serve ≡ (ok tt, after_group)
    pub cleaned : cleanup after_group ≡ (ok tt, s')

  start-Served : (t s' : W) → start p t ≡ (ok tt, s') → Served t s'
  unfolding start serve_with env_store env_client env_resolvers fill or_panic
  start-Served t s' h =
      let (client, t1, built, h1) = >>=-eq_ok p.build _ t s' tt h in
      let ((store, cleanup), t2, opened, h2) =
        >>=-eq_ok (open_default_store p.disk p.store_dir) _ t1 s' tt h1 in
      let (t4, body, cleaned) =
        with_cleanup-eq_ok cleanup (serve_with p client store) t2 s' tt h2 in
      let (resolvers, t3, resolved, served) =
        >>=-eq_ok (new_object_resolvers p.flight (p.api client) p.object_permissions) _ t2 t4 tt
          body in
      record {
        client = client;
        store = store;
        cleanup = cleanup;
        resolvers = resolvers;
        env = fill client store resolvers new_env_base;
        after_build = t1;
        after_open = t2;
        before_serve = t3;
        after_group = t4;
        built = built;
        was_opened = opened;
        resolved = resolved;
        has_store = refl;
        has_client = refl;
        has_resolvers = refl;
        served = served;
        cleaned = cleaned;
      }

  -- `Run` returns nil only if a validation ended it early, or if all workflows were valid and the
  -- client was built, the store opened, the resolvers made, and the group served with an environment
  -- that has exactly these, so that none of its accessors panics, and the cleanup came last.
  pub run-eq_ok :
      (vs : List (Io W (Unit {0}))) (s s' : W)
      → run p vs s ≡ (ok tt, s')
      → (validate_all vs s ≡ (early, s')) ⊎ ((t : W) × Passes vs s t × Served t s')
  unfolding run after_validation
  run-eq_ok vs s s' h = inspect (validate_all vs s) refl h
    where
      inspect :
          (v : Verdict × W)
          → validate_all vs s ≡ v
          → after_validation p v.0 v.1 ≡ (ok tt, s')
          → (validate_all vs s ≡ (early, s')) ⊎ ((t : W) × Passes vs s t × Served t s')
      inspect (go_on, t) e h = inr (t, validate_all-go_on vs s t e, start-Served t s' h)
      inspect (early, t) e h = inl (cc (e, state_of h))
      inspect (broken x, t) e h = absurd (cc (result_of h))
