-- ===== src/Patch/Wanted.antt =====
-- `setFacts` of internal/cataloger/patchbuilder.go: what a successful call leaves in the builder.
use paperminer.Base.{
  ℕ, suc, ◌≡◌, ◌∙◌, sym, ap, subst, String, not, ◌&&◌, ◌||◌, Bool-cases, inl, inr, Option, none,
  some, List, [], ◌∷◌, contains, str_eq, if◌then◌else◌,
}
use paperminer.Errors.{wrap}
use paperminer.Io.{Io, ok, or_wrap}
use paperminer.Io.Laws.{result_of, state_of, ok_injective, >>=-eq_ok, or_wrap-eq_ok}
use paperminer.Paperless.{Pointer, Object}
use paperminer.Facts.{Facts}
use paperminer.Resolver.{Resolver, get_by_name, get_or_create_by_name}
use paperminer.Resolver.Lookup.{Resolves}
use paperminer.Resolver.Providers.{ObjectResolvers}
use paperminer.Patch.{
  PatchBuilder, set_tag, unset_tag, set_object_fact, set_object_facts, apply_tags, set_facts,
}
use paperminer.Patch.Tags.{untagged}
use paperminer.Patch.Tags.{
  apply_all, contains-set_all, contains-unset_all, untagged-set_all, untagged-unset_all,
}

module _ {W : Type 0} where
  -- What an object fact became: nothing, a request to clear the field, or the ID of the object that
  -- the resolver returned for the name, kept at an address of its own.
  abbrev pub IsObjectFact :
      Resolver W Object → ℕ → Option String → Option (Option Pointer) → W → W → Type 0
  IsObjectFact r address none v s u = (v ≡ none) × (s ≡ u)
  IsObjectFact r address (some name) v s u =
      if str_eq name ""
      then (v ≡ some none) × (s ≡ u)
      else ((obj : Object) × (get_or_create_by_name r name s ≡ (ok obj, u))
          × (v ≡ some (some (record { address = address; value = obj.id }))))

  set_object_fact-eq_ok :
      (r : Resolver W Object) (address : ℕ) (name : Option String) (v : Option (Option Pointer))
      (s u : W)
      → set_object_fact r address name s ≡ (ok v, u)
      → IsObjectFact r address name v s u
  unfolding set_object_fact
  set_object_fact-eq_ok r address none v s u h = (cc (result_of h), state_of h)
  set_object_fact-eq_ok r address (some name) v s u h = elim (Bool-cases (str_eq name "")) [
    | inl blank ↦ let e = rw blank at h in rw blank (sym (ok_injective (result_of e)), state_of e)
    | inr given ↦
        let (obj, t, found, last) =
          >>=-eq_ok (get_or_create_by_name r name) _ s u v (rw given at h) in
        rw given
          (obj, found ∙ ap (λ w. (ok obj, w)) (state_of last), sym (ok_injective (result_of last)))
  ]

  wrapped_fact-eq_ok :
      (what : String) (r : Resolver W Object) (address : ℕ) (name : Option String)
      (v : Option (Option Pointer)) (s u : W)
      → or_wrap (wrap what) (set_object_fact r address name) s ≡ (ok v, u)
      → IsObjectFact r address name v s u
  wrapped_fact-eq_ok what r address name v s u h =
      set_object_fact-eq_ok r address name v s u
        (or_wrap-eq_ok (wrap what) (set_object_fact r address name) s u v h)

  apply_tags-eq_ok :
      (resolve : String → Io W Object) (apply : ℕ → PatchBuilder → PatchBuilder)
      (names : List String) (b b' : PatchBuilder) (s u : W)
      → apply_tags resolve apply names b s ≡ (ok b', u)
      → (ids : List ℕ) × Resolves resolve names ids s u × (b' ≡ apply_all apply ids b)
  unfolding apply_tags
  apply_tags-eq_ok resolve apply [] b b' s u h =
      ([], Resolves.nil (state_of h), sym (ok_injective (result_of h)))
  apply_tags-eq_ok resolve apply (name ∷ names) b b' s u h =
      let (tag, t, first, rest) = >>=-eq_ok (or_wrap (wrap "tag") (resolve name)) _ s u b' h in
      let (ids, resolves, e) = apply_tags-eq_ok resolve apply names (apply tag.id b) b' t u rest in
      (
        tag.id ∷ ids,
        Resolves.cons (or_wrap-eq_ok (wrap "tag") (resolve name) s t tag first) resolves,
        e,
      )

  -- The builder after a successful `setFacts`: tags to unset win over tags to set, and both over
  -- what was there.
  pub record AreApplied (rs : ObjectResolvers W) (facts : Facts) (b b' : PatchBuilder) (s u : W)
      : Type 0 where
    pub doc : b'.doc ≡ b.doc
    pub created : b'.created ≡ facts.created
    pub title : b'.title ≡ facts.title
    pub s1 : W
    pub s2 : W
    pub s3 : W
    pub s4 : W
    pub correspondent :
        IsObjectFact rs.correspondent b.next_address facts.correspondent b'.correspondent s s1
    pub document_type :
        IsObjectFact rs.document_type
          (suc b.next_address)
          facts.document_type
          b'.document_type
          s1
          s2
    pub storage_path :
        IsObjectFact rs.storage_path
          (suc (suc b.next_address))
          facts.storage_path
          b'.storage_path
          s2
          s3
    pub set_ids : List ℕ
    pub unset_ids : List ℕ
    pub sets : Resolves (get_or_create_by_name rs.tag) facts.set_tags set_ids s3 s4
    pub unsets : Resolves (get_by_name rs.tag) facts.unset_tags unset_ids s4 u
    pub tags :
        (a : ℕ)
        → contains b'.tags a
          ≡ (not (contains unset_ids a) && (contains set_ids a || contains b.tags a))

  -- The builder between the object facts and the tags.
  record ObjectsApplied (rs : ObjectResolvers W) (facts : Facts) (b b' : PatchBuilder) (s u : W)
      : Type 0 where
    c : Option (Option Pointer)
    d : Option (Option Pointer)
    p : Option (Option Pointer)
    s1 : W
    s2 : W
    correspondent : IsObjectFact rs.correspondent b.next_address facts.correspondent c s s1
    document_type : IsObjectFact rs.document_type (suc b.next_address) facts.document_type d s1 s2
    storage_path : IsObjectFact rs.storage_path (suc (suc b.next_address)) facts.storage_path p s2 u
    built : b' ≡ record b {
      created = facts.created;
      title = facts.title;
      correspondent = c;
      document_type = d;
      storage_path = p;
      next_address = suc (suc (suc b.next_address));
    }

  set_object_facts-eq_ok :
      (rs : ObjectResolvers W) (facts : Facts) (b b' : PatchBuilder) (s u : W)
      → set_object_facts rs facts b s ≡ (ok b', u)
      → ObjectsApplied rs facts b b' s u
  unfolding set_object_facts
  set_object_facts-eq_ok rs facts b b' s u h =
      let n = b.next_address in
      let (c, s1, hc, r1) =
        >>=-eq_ok
          (or_wrap (wrap "correspondent") (set_object_fact rs.correspondent n facts.correspondent))
          _ s u b' h in
      let (d, s2, hd, r2) =
        >>=-eq_ok
          (or_wrap (wrap "document type")
            (set_object_fact rs.document_type (suc n) facts.document_type))
          _ s1 u b' r1 in
      let (p, s3, hp, r3) =
        >>=-eq_ok
          (or_wrap (wrap "storage path")
            (set_object_fact rs.storage_path (suc (suc n)) facts.storage_path))
          _ s2 u b' r2 in
      record {
        c = c;
        d = d;
        p = p;
        s1 = s1;
        s2 = s2;
        correspondent =
            wrapped_fact-eq_ok "correspondent" rs.correspondent n facts.correspondent c s s1 hc;
        document_type =
            wrapped_fact-eq_ok "document type" rs.document_type (suc n) facts.document_type d s1 s2
              hd;
        storage_path =
            subst (λ w. IsObjectFact rs.storage_path (suc (suc n)) facts.storage_path p s2 w)
              (state_of r3)
              (wrapped_fact-eq_ok "storage path" rs.storage_path (suc (suc n)) facts.storage_path p
                s2 s3 hp);
        built = sym (ok_injective (result_of r3));
      }

  -- A successful `setFacts` has looked up what the facts name, in their order, and applied it.
  pub set_facts-eq_ok :
      (rs : ObjectResolvers W) (facts : Facts) (b b' : PatchBuilder) (s u : W)
      → set_facts rs facts b s ≡ (ok b', u)
      → AreApplied rs facts b b' s u
  unfolding set_facts
  set_facts-eq_ok rs facts b b' s u h =
      let (b1, s3, h1, r1) = >>=-eq_ok (set_object_facts rs facts b) _ s u b' h in
      let (b2, s4, h2, h3) =
        >>=-eq_ok (apply_tags (get_or_create_by_name rs.tag) set_tag facts.set_tags b1) _ s3 u b'
          r1 in
      let o = set_object_facts-eq_ok rs facts b b1 s s3 h1 in
      let (set_ids, sets, e2) =
        apply_tags-eq_ok (get_or_create_by_name rs.tag) set_tag facts.set_tags b1 b2 s3 s4 h2 in
      let (unset_ids, unsets, e3) =
        apply_tags-eq_ok (get_by_name rs.tag) unset_tag facts.unset_tags b2 b' s4 u h3 in
      let frame : untagged b' ≡ untagged b1 =
        ap untagged e3
        ∙ untagged-unset_all unset_ids b2
        ∙ ap untagged e2
        ∙ untagged-set_all set_ids b1 in
      let frame' = frame ∙ ap untagged o.built in
      record {
        doc = ap (λ q. q.doc) frame';
        created = ap (λ q. q.created) frame';
        title = ap (λ q. q.title) frame';
        s1 = o.s1;
        s2 = o.s2;
        s3 = s3;
        s4 = s4;
        correspondent =
            subst (λ v. IsObjectFact rs.correspondent b.next_address facts.correspondent v s o.s1)
              (sym (ap (λ q. q.correspondent) frame')) o.correspondent;
        document_type =
            subst
              (λ v.
                IsObjectFact rs.document_type (suc b.next_address) facts.document_type v o.s1 o.s2)
              (sym (ap (λ q. q.document_type) frame')) o.document_type;
        storage_path =
            subst
              (λ v.
                IsObjectFact rs.storage_path (suc (suc b.next_address)) facts.storage_path v o.s2
                  s3)
              (sym (ap (λ q. q.storage_path) frame')) o.storage_path;
        set_ids = set_ids;
        unset_ids = unset_ids;
        sets = sets;
        unsets = unsets;
        tags = λ a.
            ap (λ q. contains q.tags a) e3
            ∙ contains-unset_all unset_ids b2 a
            ∙ ap (λ q. not (contains unset_ids a) && contains q.tags a) e2
            ∙ ap (λ c. not (contains unset_ids a) && c) (contains-set_all set_ids b1 a)
            ∙ ap (λ q. not (contains unset_ids a) && (contains set_ids a || contains q.tags a))
                o.built;
      }
