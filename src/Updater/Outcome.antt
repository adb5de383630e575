-- ===== src/Updater/Outcome.antt =====
-- What an update does to the document (`applyFacts`, `markFailed`, `patchDocument` and `Do` of
-- internal/cataloger/updater.go).
use paperminer.Base.{
  ℕ, ◌≤ℤ◌, true, ◌≡◌, refl, ◌∙◌, sym, ap, subst, ◌≢◌, ◌⊎◌, Bool, false, not, ◌&&◌, ◌||◌, Bool-cases,
  inl, inr, Option, none, some, List, [], ◌∷◌, arith, contains, ◌==◌,
}
use paperminer.Errors.{Err}
use paperminer.Io.{Result, ok, err, lift}
use paperminer.Io.Laws.{result_of, state_of, ok_injective, >>=-eq_ok}
use paperminer.Paperless.{DocumentFields}
use paperminer.Facts.{Facts, is_empty}
use paperminer.Slices.{ExpOps, IsDocumented}
use paperminer.Patch.{PatchBuilder, new_patch_builder, set_tag, unset_tag, set_facts, build}
use paperminer.Patch.Tags.{
  contains-new_patch_builder, contains-set_tag, contains-unset_tag, untagged, untagged-unset_tag,
}
use paperminer.Patch.Values.{values_of, apply_patch}
use paperminer.Patch.Build.{
  IsCoherentBuilder, IsCoherentBuilder-untagged, IsWanted, build-IsWanted, build-tags,
}
use paperminer.Patch.Wanted.{AreApplied, set_facts-eq_ok}
use paperminer.Patch.Coherent.{new_patch_builder-IsFresh, set_facts-IsCoherentBuilder}
use paperminer.Facter.{Context}
use paperminer.Documents.{Fs, is_useful}
use paperminer.Updater.Size.{check_size-eq_ok_iff}
use paperminer.Updater.{
  Updater, check_size, get_facts, patch_document, with_facts, apply_facts, mark_failed, finish,
  is_permanent_error, do_update,
}

module _ {W File : Type 0} (u : Updater W File) where
  -- A successful `patchDocument`: either there was nothing to change, or the document was found
  -- unmodified and then, at once, patched.
  pub IsSent : DocumentFields → W → W → Type 0
  IsSent patch s s' =
      ((patch ≡ []) × (s ≡ s'))
      ⊎ ((t : W) × (u.check_modified s ≡ (ok tt, t))
          × (u.client.patch_document u.document.id patch t ≡ (ok tt, s')))

  patch_document-eq_ok :
      (patch : DocumentFields) (s s' : W)
      → patch_document u patch s ≡ (ok tt, s')
      → IsSent patch s s'
  unfolding patch_document IsSent
  patch_document-eq_ok [] s s' h = inl (refl, state_of h)
  patch_document-eq_ok (x ∷ patch) s s' h =
      let (_, t, checked, sent) =
        >>=-eq_ok u.check_modified (λ _. u.client.patch_document u.document.id (x ∷ patch)) s s' tt
          h in
      inr (t, checked, sent)

  -- The tags of the document after the patch of a builder for it.
  abbrev tags_after : ExpOps → PatchBuilder → List ℕ
  tags_after ops b = (apply_patch (build ops b) (values_of u.document)).tags

  -- The builder behind `markFailed`, and the one behind `applyFacts` once it has the facts.
  pub failed_builder : PatchBuilder
  failed_builder = set_tag u.failed_tag.id (unset_tag u.todo_tag.id (new_patch_builder u.document))

  pub updated_builder : PatchBuilder → PatchBuilder
  updated_builder pb = unset_tag u.failed_tag.id (unset_tag u.todo_tag.id pb)

  mark_failed-tags :
      (ops : ExpOps) (a : ℕ)
      → IsDocumented ops
      → contains (tags_after ops failed_builder) a
        ≡ (u.failed_tag.id == a || (not (u.todo_tag.id == a) && contains u.document.tags a))
  unfolding failed_builder set_tag new_patch_builder
  mark_failed-tags ops a d =
      let b = new_patch_builder u.document in
      build-tags ops failed_builder u.document a d
        (ap (λ (q : PatchBuilder). q.doc) (untagged-unset_tag u.todo_tag.id b))
      ∙ contains-set_tag u.failed_tag.id (unset_tag u.todo_tag.id b) a
      ∙ ap (λ c. u.failed_tag.id == a || c)
          (contains-unset_tag u.todo_tag.id b a
            ∙ ap (λ c. not (u.todo_tag.id == a) && c) (contains-new_patch_builder u.document a))

  -- A successful `markFailed` has sent a patch that replaces the todo tag by the failed tag, and
  -- leaves all other tags, with operations as documented.
  pub mark_failed-eq_ok :
      (ops : ExpOps) (e : Err) (s s' : W)
      → IsDocumented ops
      → mark_failed ops u e s ≡ (ok tt, s')
      → (patch : DocumentFields) × IsSent patch s s'
        × ((a : ℕ)
            → contains (apply_patch patch (values_of u.document)).tags a
              ≡ (u.failed_tag.id == a || (not (u.todo_tag.id == a) && contains u.document.tags a)))
  unfolding mark_failed failed_builder
  mark_failed-eq_ok ops e s s' d h = (
    build ops failed_builder,
    patch_document-eq_ok (build ops failed_builder) s s' h,
    λ a. mark_failed-tags ops a d,
  )

  updated_builder-tags :
      (pb : PatchBuilder) (a : ℕ)
      → contains (updated_builder pb).tags a
        ≡ (not (u.failed_tag.id == a) && (not (u.todo_tag.id == a) && contains pb.tags a))
  unfolding updated_builder
  updated_builder-tags pb a =
      contains-unset_tag u.failed_tag.id (unset_tag u.todo_tag.id pb) a
      ∙ ap (λ c. not (u.failed_tag.id == a) && c) (contains-unset_tag u.todo_tag.id pb a)

  updated_builder-untagged : (pb : PatchBuilder) → untagged (updated_builder pb) ≡ untagged pb
  unfolding updated_builder
  updated_builder-untagged pb =
      untagged-unset_tag u.failed_tag.id (unset_tag u.todo_tag.id pb)
      ∙ untagged-unset_tag u.todo_tag.id pb

  -- A builder of the document whose pointers are coherent.
  record IsBuilder (pb : PatchBuilder) : Type 0 where
    doc : pb.doc ≡ u.document
    coherent : IsCoherentBuilder pb

  new_patch_builder-IsBuilder : IsBuilder (new_patch_builder u.document)
  unfolding new_patch_builder
  new_patch_builder-IsBuilder = record {
    doc = refl;
    coherent = record {
      correspondent = λ p q h. absurd (cc);
      document_type = λ p q h. absurd (cc);
      storage_path = λ p q h. absurd (cc);
    };
  }

  with_facts-IsBuilder :
      (facts : Option Facts) (pb : PatchBuilder) (s s' : W)
      → with_facts u facts s ≡ (ok pb, s')
      → IsBuilder pb
  unfolding with_facts
  with_facts-IsBuilder none pb s s' h =
      subst IsBuilder (ok_injective (result_of h)) new_patch_builder-IsBuilder
  with_facts-IsBuilder (some facts) pb s s' h = elim (Bool-cases (is_useful (some facts))) [
    | inl useful ↦
        let a = set_facts-eq_ok u.resolvers facts _ pb s s' (rw useful at h) in
        record {
          doc = a.doc ∙ new_patch_builder-IsBuilder.doc;
          coherent =
              set_facts-IsCoherentBuilder u.resolvers facts _ pb s s'
                (new_patch_builder-IsFresh u.document) a;
        }
    | inr empty ↦
        subst IsBuilder (ok_injective (result_of (rw empty at h))) new_patch_builder-IsBuilder
  ]

  updated_builder-IsBuilder : (pb : PatchBuilder) → IsBuilder pb → IsBuilder (updated_builder pb)
  updated_builder-IsBuilder pb b =
      let e = updated_builder-untagged pb in
      record {
        doc = ap (λ (q : PatchBuilder). q.doc) e ∙ b.doc;
        coherent = IsCoherentBuilder-untagged pb (updated_builder pb) (sym e) b.coherent;
      }

  -- The builder is that of the document, with what facts that are not empty name looked up in it.
  pub IsPrepared : Option Facts → PatchBuilder → W → W → Type 0
  IsPrepared facts pb t t' =
      ((is_useful facts ≡ false) × (pb ≡ new_patch_builder u.document) × (t ≡ t'))
      ⊎ ((f : Facts) × (facts ≡ some f)
          × (is_empty f ≡ false)
          × AreApplied u.resolvers f (new_patch_builder u.document) pb t t')

  with_facts-IsPrepared :
      (facts : Option Facts) (pb : PatchBuilder) (t t' : W)
      → with_facts u facts t ≡ (ok pb, t')
      → IsPrepared facts pb t t'
  unfolding with_facts IsPrepared
  with_facts-IsPrepared none pb t t' h = inl (refl, sym (ok_injective (result_of h)), state_of h)
  with_facts-IsPrepared (some facts) pb t t' h = elim (Bool-cases (is_empty facts)) [
    | inl empty ↦
        let e : with_facts u (some facts) t ≡ (ok (new_patch_builder u.document), t) =
          rw empty refl in
        let both = sym e ∙ h in
        inl (rw empty refl, sym (ok_injective (result_of both)), state_of both)
    | inr useful ↦
        let e : with_facts u (some facts) t
            ≡ set_facts u.resolvers facts (new_patch_builder u.document) t =
          rw useful refl in
        inr (
          facts,
          refl,
          useful,
          set_facts-eq_ok u.resolvers facts (new_patch_builder u.document) pb t t' (sym e ∙ h),
        )
  ]

  -- What a successful `applyFacts` did: it found the document and its archived version no larger than
  -- the limit, looked for facts, looked up what they name, and sent the patch that brings the document
  -- to the builder made of it, without the two tags.
  pub record IsUpdated (ops : ExpOps) (fs : Fs W File) (ctx : Context) (s s' : W) : Type 0 where
    pub original_fits : u.metadata.original_size ≤ℤ u.file_size_max
    pub archive_fits :
        u.metadata.has_archive_version ≡ true → u.metadata.archive_size ≤ℤ u.file_size_max
    pub facts : Option Facts
    pub pb : PatchBuilder
    pub t1 : W
    pub t2 : W
    pub extracted : get_facts fs u ctx u.metadata.has_archive_version s ≡ (ok facts, t1)
    pub prepared : IsPrepared facts pb t1 t2
    pub sent : IsSent (build ops (updated_builder pb)) t2 s'
    pub wanted :
        IsWanted
          (updated_builder pb)
          (apply_patch (build ops (updated_builder pb)) (values_of u.document))
    pub tags :
        (a : ℕ)
        → contains (apply_patch (build ops (updated_builder pb)) (values_of u.document)).tags a
          ≡ (not (u.failed_tag.id == a) && (not (u.todo_tag.id == a) && contains pb.tags a))

  pub apply_facts-eq_ok :
      (ops : ExpOps) (fs : Fs W File) (ctx : Context) (s s' : W)
      → IsDocumented ops
      → apply_facts ops fs u ctx s ≡ (ok tt, s')
      → IsUpdated ops fs ctx s s'
  unfolding apply_facts updated_builder
  apply_facts-eq_ok ops fs ctx s s' d h =
      let (_, t0, fits, r0) = >>=-eq_ok (lift (check_size u)) _ s s' tt h in
      let (facts, t1, extracted, r1) =
        >>=-eq_ok (get_facts fs u ctx u.metadata.has_archive_version) _ t0 s' tt r0 in
      let (pb, t2, prepared, r2) = >>=-eq_ok (with_facts u facts) _ t1 s' tt r1 in
      let b = updated_builder-IsBuilder pb (with_facts-IsBuilder facts pb t1 t2 prepared) in
      let patch = build ops (updated_builder pb) in
      record {
        original_fits = ((check_size-eq_ok_iff u).0 (result_of fits)).0;
        archive_fits = ((check_size-eq_ok_iff u).0 (result_of fits)).1;
        facts = facts;
        pb = pb;
        t1 = t1;
        t2 = t2;
        extracted =
            subst (λ w. get_facts fs u ctx u.metadata.has_archive_version w ≡ (ok facts, t1))
              (sym (state_of fits)) extracted;
        prepared = with_facts-IsPrepared facts pb t1 t2 prepared;
        sent = patch_document-eq_ok patch t2 s' r2;
        wanted =
            subst (λ q. IsWanted (updated_builder pb) (apply_patch patch (values_of q))) b.doc
              (build-IsWanted ops (updated_builder pb) d b.coherent);
        tags = λ a.
            build-tags ops (updated_builder pb) u.document a d b.doc ∙ updated_builder-tags pb a;
      }

  -- A successful update, also one that marks the document as failed, has sent a patch that takes the
  -- todo tag away (or found it gone), so that the document is not listed again.
  pub do_update-clears_todo :
      (ops : ExpOps) (fs : Fs W File) (ctx : Context) (last_retry : Bool) (s s' : W)
      → IsDocumented ops
      → u.todo_tag.id ≢ u.failed_tag.id
      → do_update ops fs u ctx last_retry s ≡ (ok tt, s')
      → (patch : DocumentFields) × (t : W) × IsSent patch t s'
        × (contains (apply_patch patch (values_of u.document)).tags u.todo_tag.id ≡ false)
  unfolding do_update mark_failed failed_builder
  do_update-clears_todo ops fs ctx last_retry s s' d ne h =
      inspect (apply_facts ops fs u ctx s) refl h
    where
      inspect :
          (a : Result (Unit {0}) × W)
          → apply_facts ops fs u ctx s ≡ a
          → finish ops u last_retry a.0 a.1 ≡ (ok tt, s')
          → (patch : DocumentFields) × (t : W) × IsSent patch t s'
            × (contains (apply_patch patch (values_of u.document)).tags u.todo_tag.id ≡ false)
      inspect (ok done, t) e f =
          let i = apply_facts-eq_ok ops fs ctx s s' d (e ∙ f) in
          (build ops (updated_builder i.pb), i.t2, i.sent, ground (arith, i.tags u.todo_tag.id))
      inspect (err x, t) e f = elim (Bool-cases (last_retry || is_permanent_error x)) [
        | inl permanent ↦ (
          build ops failed_builder,
          t,
          patch_document-eq_ok (build ops failed_builder) t s' (rw permanent at f),
          ground (arith, mark_failed-tags ops u.todo_tag.id d),
        )
        | inr retry ↦ absurd (cc (result_of (rw retry at f)))
      ]
