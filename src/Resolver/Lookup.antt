-- ===== src/Resolver/Lookup.antt =====
-- What a resolver promises of any provider (internal/objectresolver/resolver.go).
use paperminer.Base.{
  ℕ, String, ◌≡◌, refl, ◌∙◌, sym, ap, ◌≢◌, ◌⊎◌, true, subst, str_eq, eq_iff, eq_refl, if◌then◌else◌,
  Bool-cases, inl, inr, List, [], ◌∷◌,
}
use paperminer.Errors.{Err, plain, wrap, detail, not_found, is_error}
use paperminer.Io.{Io, Result, ok, err, continue, or_wrap}
use paperminer.Io.Laws.{result_of, state_of, >>=-eq_ok, or_wrap-eq_ok}
use paperminer.Paperless.{Object}
use paperminer.Resolver.{
  Resolver, Leads, Joins, get_first, look_up, create_missing, get_by_name, get_or_create_by_name,
}

module _ {W T : Type 0} (r : Resolver W T) (name : String) where
  get_first-eq_ok : (objs : List T) (x : T) → get_first r name objs ≡ ok x → objs ≡ x ∷ []
  unfolding get_first
  get_first-eq_ok [] x h = cc
  get_first-eq_ok (a ∷ []) x h = cc
  get_first-eq_ok (a ∷ b ∷ l) x h = cc

  look_up-eq_ok :
      (s s' : W) (x : T)
      → look_up r name s ≡ (ok x, s')
      → r.p.list_by_name name s ≡ (ok (x ∷ []), s')
  unfolding look_up
  look_up-eq_ok s s' x h = inspect (r.p.list_by_name name s) h
    where
      inspect :
          (v : Result (List T) × W)
          → continue (λ objs t. (get_first r name objs, t)) v.0 v.1 ≡ (ok x, s')
          → v ≡ (ok (x ∷ []), s')
      inspect (ok objs, t) e = cc (get_first-eq_ok objs x (ap (λ (p : Result T × W). p.0) e))
      inspect (err f, t) e = cc

  -- The value of a successful call is the one object of the last listing.
  create_missing-eq_ok :
      (found : Result T) (s s' : W) (x : T)
      → (found ≡ ok x → (t : W) × (r.p.list_by_name name t ≡ (ok (x ∷ []), s)))
      → create_missing r name found s ≡ (ok x, s')
      → (t : W) × (r.p.list_by_name name t ≡ (ok (x ∷ []), s'))
  unfolding create_missing
  create_missing-eq_ok (ok y) s s' x known h =
      let k = known (result_of h) in (k.0, cc (k.1, state_of h))
  create_missing-eq_ok (err e) s s' x known h = elim (Bool-cases (is_error e not_found)) [
    | inl missing ↦
        let (_, t, _, again) =
          >>=-eq_ok (or_wrap (wrap "creating") (r.p.create name))
            (λ _. or_wrap (wrap "getting") (look_up r name)) s s' x (rw missing at h) in
        (t, look_up-eq_ok t s' x (or_wrap-eq_ok (wrap "getting") (look_up r name) t s' x again))
    | inr other ↦ absurd (cc (result_of (rw other at h)))
  ]

  -- If no other goroutine resolves the name, a call that returns an object has seen it as the only
  -- object of that name in a listing, and nothing has happened to the server since.
  pub get_or_create_by_name-eq_ok :
      (s s' : W) (x : T)
      → Leads r name
      → get_or_create_by_name r name s ≡ (ok x, s')
      → (t : W) × (r.p.list_by_name name t ≡ (ok (x ∷ []), s'))
  unfolding get_or_create_by_name
  get_or_create_by_name-eq_ok s s' x leads h =
      let (found, t) = look_up r name s in
      create_missing-eq_ok found t s' x (λ e. (s, look_up-eq_ok s t x (cc e))) (sym (leads _ s) ∙ h)

  -- Nothing is created unless the name is missing: if no other goroutine resolves the name, and the
  -- call ends in another state than its first listing, then that listing was empty or failed with
  -- "not found".
  pub get_or_create_by_name_creates_if_missing :
      (s s' : W) (listing : Result (List T))
      → Leads r name
      → r.p.list_by_name name s ≡ (listing, s')
      → (get_or_create_by_name r name s).1 ≢ s'
      → (listing ≡ ok []) ⊎ ((e : Err) × (listing ≡ err e) × (is_error e not_found ≡ true))
  unfolding get_or_create_by_name
  get_or_create_by_name_creates_if_missing s s' (ok []) leads l h = inl refl
  get_or_create_by_name_creates_if_missing s s' (ok (x ∷ [])) leads l h =
      absurd (h (rw (leads _ s) (rw l)))
  get_or_create_by_name_creates_if_missing s s' (ok (x ∷ y ∷ rest)) leads l h =
      absurd (h (rw (leads _ s) (rw l)))
  get_or_create_by_name_creates_if_missing s s' (err e) leads l h =
      elim (Bool-cases (is_error e not_found)) [
        | inl missing ↦ inr (e, refl, missing)
        | inr other ↦ absurd (h (rw (leads _ s) (rw l (rw other))))
      ]

  -- `GetByName` of the name hands the call `m` to `Do` under the key, whatever `Do` then does.
  abbrev pub GetsBy : String → Io W T → Type 0
  GetsBy key m =
      (flight : String → Io W T → Io W T)
      → get_by_name (record r { do_once = flight }) name ≡ flight key m

  -- A flight that answers by whether the key is that of the name.
  abbrev by_key : String → Io W T → Io W T
  by_key key m s = (err (plain (if str_eq key name then "same" else "other")), s)

  GetsBy-key : (key : String) (m : Io W T) (s : W) → GetsBy key m → str_eq key name ≡ true
  unfolding get_by_name
  GetsBy-key key m s by = elim (Bool-cases (str_eq key name)) [
    | inl same ↦ same
    | inr other ↦
        let e : by_key name (look_up r name) s ≡ by_key key m s =
          ap (λ (n : Io W T). n s) (by by_key) in
        absurd (texts_differ (rw (eq_refl name, other) at (result_of e)))
  ]
    where
      texts_differ : ◌≡◌ {A = Result T} (err (plain "same")) (err (plain "other")) → ⊥
      texts_differ h = cc h

  -- While a `GetByName` of the same name is in flight, `Do` hands the result of its call over, under
  -- the key that it has. A `GetOrCreateByName` then shares its "not found": it fails, and creates
  -- nothing, although the name is missing.
  pub get_or_create_by_name_joined :
      (key : String) (m : Io W T) (s s' : W)
      → GetsBy key m
      → Joins r key m
      → r.p.list_by_name name s ≡ (ok [], s')
      → get_or_create_by_name r name s ≡ (err (detail not_found r.kind), s')
  unfolding get_or_create_by_name get_by_name
  get_or_create_by_name_joined key m s s' by joins missing =
      let same = (eq_iff key name).0 (GetsBy-key key m s by) in
      let call : look_up r name s ≡ m s = ap (λ (n : Io W T). n s) (by (λ k n. n)) in
      let joins_name : Joins r name m = subst (λ k. Joins r k m) same joins in
      joins_name _ s ∙ sym call ∙ rw missing refl

-- The IDs are those of the names, each looked up in turn.
pub data Resolves {W : Type 0} (resolve : String → Io W Object)
    : List String → List ℕ → W → W → Type 0 where
  nil : {s u : W} → s ≡ u → Resolves resolve [] [] s u
  cons :
      {name : String} {names : List String} {obj : Object} {ids : List ℕ} {s t u : W}
      → resolve name s ≡ (ok obj, t)
      → Resolves resolve names ids t u
      → Resolves resolve (name ∷ names) (obj.id ∷ ids) s u
