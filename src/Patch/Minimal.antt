-- ===== src/Patch/Minimal.antt =====
-- When `build` of internal/cataloger/patchbuilder.go sends nothing, and that the patch depends on
-- neither the order of the map's keys nor the sorting algorithm.
use mathlib.Core.Option.{some-injective}
use paperminer.Base.{
  ℕ, ◌≡◌, refl, ◌∙◌, sym, ◌≢◌, ◌↔◌, String, Bool, true, false, Bool-cases, inl, inr, Option, none,
  some, List, [], ◌∷◌, ◌++◌, contains, eqb_ℤ, eqb_ℤ_iff, str_eq, eq_iff,
}
use paperminer.Paperless.{
  Time, Pointer, FieldSetting, set_created, set_title, set_correspondent, set_document_type,
  set_storage_path, set_tags, DocumentFields,
}
use paperminer.Slices.{ExpOps, IsDocumented}
use paperminer.Patch.{
  normalize_ids, PatchBuilder, pointer_eq, deref, patch_optional_value, patch_optional_time_value,
  patch_tags, build,
}
use paperminer.Patch.Tags.{normalize_ids_iff}

append-ne-nil : (patch : DocumentFields) (x : FieldSetting) → patch ++ (x ∷ []) ≢ []
append-ne-nil [] x h = cc
append-ne-nil (y ∷ patch) x h = cc

optional-nil_iff {ℓ} :
    {T : Type ℓ} (same : T → T → Bool) (set : T → FieldSetting) (value : Option T) (current : T)
    (patch : DocumentFields)
    → (patch_optional_value same set value current patch ≡ [])
      ↔ ((patch ≡ []) × ((x : T) → value ≡ some x → same x current ≡ true))
unfolding patch_optional_value
optional-nil_iff same set none current patch = (λ h. (h, λ x e. cc), λ h. h.0)
optional-nil_iff same set (some y) current patch = elim (Bool-cases (same y current)) [
  | inl eq ↦ rw eq ((λ h. (h, λ x e. rw (sym (some-injective y x e)) eq)), λ h. h.0)
  | inr ne ↦
      rw ne ((λ h. absurd (append-ne-nil patch (set y) h)), λ h. absurd (cc (ne, h.1 y refl)))
]

time-nil_iff :
    (set : Time → FieldSetting) (value : Option Time) (current : Time) (patch : DocumentFields)
    → (patch_optional_time_value set value current patch ≡ [])
      ↔ ((patch ≡ []) × ((t : Time) → value ≡ some t → eqb_ℤ t current ≡ true))
unfolding patch_optional_time_value patch_optional_value
time-nil_iff set none current patch = optional-nil_iff eqb_ℤ set none current patch
time-nil_iff set (some t) current patch = optional-nil_iff eqb_ℤ set (some t) current patch

module _ (ops : ExpOps) (d : IsDocumented ops) where
  tags-nil_iff :
      (keys doc_tags : List ℕ) (patch : DocumentFields)
      → (patch_tags ops keys doc_tags patch ≡ [])
        ↔ ((patch ≡ []) × ((a : ℕ) → contains keys a ≡ contains doc_tags a))
  unfolding patch_tags
  tags-nil_iff keys doc_tags patch =
      let tags = normalize_ids ops (ops.exp_keys keys) in
      let orig = normalize_ids ops doc_tags in
      let same = normalize_ids_iff ops ops (ops.exp_keys keys) doc_tags d d in
      elim (Bool-cases (ops.exp_equal tags orig)) [
        | inl eq ↦ rw eq (
          (λ h. (h, λ a. sym (d.contains-keys keys a) ∙ same.0 ((d.equal_iff tags orig).0 eq) a)),
          λ h. h.0,
        )
        | inr ne ↦ rw ne (
          (λ h. absurd (append-ne-nil patch (set_tags tags) h)),
          λ h.
              absurd
                (cc (ne, (d.equal_iff tags orig).1 (same.1 (λ a. d.contains-keys keys a ∙ h.1 a)))),
        )
      ]

-- No fact asks for a change: values are equal, pointers are both nil or one and the same.
pub record IsUnchanged (b : PatchBuilder) : Type 0 where
  pub created : (t : Time) → b.created ≡ some t → t ≡ b.doc.created
  pub title : (t : String) → b.title ≡ some t → t ≡ b.doc.title
  pub correspondent :
      (p : Option Pointer) → b.correspondent ≡ some p → pointer_eq p b.doc.correspondent ≡ true
  pub document_type :
      (p : Option Pointer) → b.document_type ≡ some p → pointer_eq p b.doc.document_type ≡ true
  pub storage_path :
      (p : Option Pointer) → b.storage_path ≡ some p → pointer_eq p b.doc.storage_path ≡ true
  pub tags : (a : ℕ) → contains b.tags a ≡ contains b.doc.tags a

-- The patch is empty exactly if no fact asks for a change.
pub build-nil_iff :
    (ops : ExpOps) (b : PatchBuilder) → IsDocumented ops → (build ops b ≡ []) ↔ IsUnchanged b
unfolding build
build-nil_iff ops b d = (
  λ h.
      let (h5, tags) = (tags-nil_iff ops d b.tags b.doc.tags _).0 h in
      let (h4, storage_path) =
        (optional-nil_iff pointer_eq _ b.storage_path b.doc.storage_path _).0 h5 in
      let (h3, document_type) =
        (optional-nil_iff pointer_eq _ b.document_type b.doc.document_type _).0 h4 in
      let (h2, correspondent) =
        (optional-nil_iff pointer_eq _ b.correspondent b.doc.correspondent _).0 h3 in
      let (h1, title) = (optional-nil_iff str_eq _ b.title b.doc.title _).0 h2 in
      let (_, created) = (time-nil_iff _ b.created b.doc.created _).0 h1 in
      record {
        created = λ t e. (eqb_ℤ_iff t b.doc.created).0 (created t e);
        title = λ t e. (eq_iff t b.doc.title).0 (title t e);
        correspondent = correspondent;
        document_type = document_type;
        storage_path = storage_path;
        tags = tags;
      },
  λ u.
      let h1 =
        (time-nil_iff set_created b.created b.doc.created []).1
          (refl, λ t e. (eqb_ℤ_iff t b.doc.created).1 (u.created t e)) in
      let h2 =
        (optional-nil_iff str_eq set_title b.title b.doc.title _).1
          (h1, λ t e. (eq_iff t b.doc.title).1 (u.title t e)) in
      let h3 =
        (optional-nil_iff pointer_eq (λ v. set_correspondent (deref v)) b.correspondent
            b.doc.correspondent _).1
          (h2, u.correspondent) in
      let h4 =
        (optional-nil_iff pointer_eq (λ v. set_document_type (deref v)) b.document_type
            b.doc.document_type _).1
          (h3, u.document_type) in
      let h5 =
        (optional-nil_iff pointer_eq (λ v. set_storage_path (deref v)) b.storage_path
            b.doc.storage_path _).1
          (h4, u.storage_path) in
      (tags-nil_iff ops d b.tags b.doc.tags _).1 (h5, u.tags),
)

Bool-ext : (a b : Bool) → ((a ≡ true) ↔ (b ≡ true)) → a ≡ b
Bool-ext true b h = sym (h.0 refl)
Bool-ext false true h = h.1 refl
Bool-ext false false h = refl

-- The patch is the same with any sorting and compacting functions, and with the keys of the map of
-- tags in any order.
pub build-ops :
    (ops ops' : ExpOps) (b : PatchBuilder)
    → IsDocumented ops
    → IsDocumented ops'
    → build ops b ≡ build ops' b
unfolding build patch_tags
build-ops ops ops' b d d' =
    let keys =
      (normalize_ids_iff ops ops' (ops.exp_keys b.tags) (ops'.exp_keys b.tags) d d').1
        (λ a. d.contains-keys b.tags a ∙ sym (d'.contains-keys b.tags a)) in
    let orig = (normalize_ids_iff ops ops' b.doc.tags b.doc.tags d d').1 (λ a. refl) in
    let l = normalize_ids ops' (ops'.exp_keys b.tags) in
    let r = normalize_ids ops' b.doc.tags in
    let test = Bool-ext (ops.exp_equal l r) (ops'.exp_equal l r) (
      λ h. (d'.equal_iff l r).1 ((d.equal_iff l r).0 h),
      λ h. (d.equal_iff l r).1 ((d'.equal_iff l r).0 h),
    ) in
    rw (keys, orig, test)
