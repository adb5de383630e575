-- ===== src/Patch/Resent.antt =====
-- An ID that has not changed is sent again (`build` of internal/cataloger/patchbuilder.go).
use mathlib.Core.List.{append_assoc}
use paperminer.Base.{
  ℕ, ◌≡◌, refl, ◌∙◌, sym, ap, subst, String, false, Bool-cases, inl, inr, Option, none, some, List,
  [], ◌∷◌, ◌++◌, arith, str_eq, ◌==◌,
}
use paperminer.Io.{ok}
use paperminer.Io.Laws.{result_of, ok_injective}
use paperminer.Paperless.{
  Pointer, Document, Object, FieldSetting, DocumentFields, set_created, set_title,
  set_correspondent, set_document_type, set_storage_path, set_tags,
}
use paperminer.Facts.{Facts}
use paperminer.Slices.{ExpOps, IsDocumented}
use paperminer.Resolver.{get_or_create_by_name}
use paperminer.Resolver.Providers.{ObjectResolvers}
use paperminer.Patch.{
  PatchBuilder, new_patch_builder, set_facts, pointer_eq, deref, patch_optional_value,
  patch_optional_time_value, patch_tags, normalize_ids, build,
}
use paperminer.Patch.Values.{values_of, apply_patch}
use paperminer.Patch.Build.{build-IsWanted}
use paperminer.Patch.Wanted.{IsObjectFact, set_facts-eq_ok}
use paperminer.Patch.Coherent.{new_patch_builder-IsFresh, set_facts-IsCoherentBuilder}

-- The setting is made in the patch.
abbrev pub Has : FieldSetting → DocumentFields → Type 0
Has f patch = (before : DocumentFields) × (after : DocumentFields) × (patch ≡ before ++ (f ∷ after))

Has-append : (f : FieldSetting) (patch more : DocumentFields) → Has f patch → Has f (patch ++ more)
Has-append f patch more (before, after, e) =
    (before, after ++ more, ap (λ l. l ++ more) e ∙ append_assoc before (f ∷ after) more)

Has-optional :
    (f : FieldSetting) (set : Option Pointer → FieldSetting) (value : Option (Option Pointer))
    (current : Option Pointer) (patch : DocumentFields)
    → Has f patch
    → Has f (patch_optional_value pointer_eq set value current patch)
unfolding patch_optional_value
Has-optional f set none current patch h = h
Has-optional f set (some value) current patch h = elim (Bool-cases (pointer_eq value current)) [
  | inl same ↦ rw same h
  | inr other ↦ rw other (Has-append f patch (set value ∷ []) h)
]

Has-tags :
    (f : FieldSetting) (ops : ExpOps) (keys tags : List ℕ) (patch : DocumentFields)
    → Has f patch
    → Has f (patch_tags ops keys tags patch)
unfolding patch_tags
Has-tags f ops keys tags patch h =
    let new = normalize_ids ops (ops.exp_keys keys) in
    elim (Bool-cases (ops.exp_equal new (normalize_ids ops tags))) [
      | inl same ↦ rw same h
      | inr other ↦ rw other (Has-append f patch (set_tags new ∷ []) h)
    ]

-- A value that is at another address than the document's is sent.
build-Has :
    (ops : ExpOps) (b : PatchBuilder) (v : Option Pointer)
    → b.correspondent ≡ some v
    → pointer_eq v b.doc.correspondent ≡ false
    → Has (set_correspondent (deref v)) (build ops b)
unfolding build
build-Has ops b v given apart =
    let f = set_correspondent (deref v) in
    let p1 = patch_optional_time_value set_created b.created b.doc.created [] in
    let p2 = patch_optional_value str_eq set_title b.title b.doc.title p1 in
    let h3 : Has f (
        patch_optional_value pointer_eq (λ w. set_correspondent (deref w)) b.correspondent
          b.doc.correspondent p2) =
      (p2, [], rw given (rw apart refl)) in
    let h4 =
      Has-optional f (λ w. set_document_type (deref w)) b.document_type b.doc.document_type _ h3 in
    let h5 =
      Has-optional f (λ w. set_storage_path (deref w)) b.storage_path b.doc.storage_path _ h4 in
    Has-tags f ops b.tags b.doc.tags _ h5

-- The resolver finds that the correspondent of the facts is the one that the document has. The patch
-- sets it all the same, since `setFacts` keeps the ID at another address and `build` compares
-- pointers; the document keeps its correspondent.
pub set_facts_resends_correspondent :
    {W : Type 0} (rs : ObjectResolvers W) (ops : ExpOps) (facts : Facts) (doc : Document)
    (name : String) (obj : Object) (q : Pointer) (b : PatchBuilder) (s s1 u : W)
    → IsDocumented ops
    → facts.correspondent ≡ some name
    → str_eq name "" ≡ false
    → get_or_create_by_name rs.correspondent name s ≡ (ok obj, s1)
    → doc.correspondent ≡ some q
    → q.value ≡ obj.id
    → set_facts rs facts (new_patch_builder doc) s ≡ (ok b, u)
    → Has (set_correspondent (some obj.id)) (build ops b)
      × ((apply_patch (build ops b) (values_of doc)).correspondent ≡ (values_of doc).correspondent)
unfolding new_patch_builder
set_facts_resends_correspondent rs ops facts doc name obj q b s s1 u d named given found has same
      h =
    let start = new_patch_builder doc in
    let a = set_facts-eq_ok rs facts start b s u h in
    let n = start.next_address in
    let f : IsObjectFact rs.correspondent n (some name) b.correspondent s a.s1 =
      subst (λ m. IsObjectFact rs.correspondent n m b.correspondent s a.s1) named a.correspondent in
    let (obj', found', e) = rw given at f in
    let same_obj : obj' ≡ obj = ok_injective (result_of (sym found' ∙ found)) in
    let p : Pointer = record { address = n; value = obj.id } in
    let kept : b.correspondent ≡ some (some p) =
      e ∙ ap (λ (o : Object). some (some (record { address = n; value = o.id }))) same_obj in
    let in_doc : b.doc.correspondent ≡ some q =
      ap (λ (x : Document). x.correspondent) a.doc ∙ has in
    let below = (new_patch_builder-IsFresh doc).correspondent q has in
    let apart : (n == q.address) ≡ false = ground arith in
    let wanted =
      build-IsWanted ops b d
        (set_facts-IsCoherentBuilder rs facts start b s u (new_patch_builder-IsFresh doc) a) in
    let there : (apply_patch (build ops b) (values_of doc)).correspondent ≡ some obj.id =
      subst (λ x. (apply_patch (build ops b) (values_of x)).correspondent ≡ some obj.id) a.doc
        (wanted.correspondent ∙ rw kept refl) in
    (build-Has ops b (some p) kept (rw in_doc apart), there ∙ rw has (ap some (sym same)))
