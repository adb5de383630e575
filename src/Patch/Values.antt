-- ===== src/Patch/Values.antt =====
-- What a patch does to a document on the server, by the documentation of its PATCH request: each
-- field that was set is replaced. This is the specification that `build` is held against.
use paperminer.Base.{
  ℕ, ◌≡◌, refl, String, Bool, Bool-cases, inl, inr, Option, none, some, List, [], ◌∷◌, ◌++◌,
  if◌then◌else◌, eqb_ℤ,
}
use paperminer.Paperless.{
  Time, Pointer, Document, FieldSetting, set_created, set_title, set_correspondent,
  set_document_type, set_storage_path, set_tags, DocumentFields,
}
use paperminer.Slices.{ExpOps}
use paperminer.Patch.{
  normalize_ids, patch_optional_value, patch_optional_time_value, patch_tags, deref, pointer_eq,
}

pub record Values : Type 0 where
  pub created : Time
  pub title : String
  pub correspondent : Option ℕ
  pub document_type : Option ℕ
  pub storage_path : Option ℕ
  pub tags : List ℕ

abbrev pub values_of : Document → Values
values_of d = record {
  created = d.created;
  title = d.title;
  correspondent = deref d.correspondent;
  document_type = deref d.document_type;
  storage_path = deref d.storage_path;
  tags = d.tags;
}

abbrev apply_setting : FieldSetting → Values → Values
apply_setting (set_created t) v = record v { created = t }
apply_setting (set_title t) v = record v { title = t }
apply_setting (set_correspondent id) v = record v { correspondent = id }
apply_setting (set_document_type id) v = record v { document_type = id }
apply_setting (set_storage_path id) v = record v { storage_path = id }
apply_setting (set_tags ids) v = record v { tags = ids }

abbrev pub apply_patch : DocumentFields → Values → Values
apply_patch [] v = v
apply_patch (x ∷ patch) v = apply_patch patch (apply_setting x v)

apply_patch-append :
    (patch : DocumentFields) (x : FieldSetting) (v : Values)
    → apply_patch (patch ++ (x ∷ [])) v ≡ apply_setting x (apply_patch patch v)
apply_patch-append [] x v = refl
apply_patch-append (y ∷ patch) x v = apply_patch-append patch x (apply_setting y v)

-- The new value of a field: the old one unless a value was asked for that is not the same.
abbrev pub pick {ℓ κ} : {T : Type ℓ} {U : Type κ} → (T → T → Bool) → (T → U) → Option T → T → U → U
pick same f none current old = old
pick same f (some value) current old = if same value current then old else f value

-- Each step of `build` updates one field.
pub apply-time :
    (value : Option Time) (current : Time) (patch : DocumentFields) (v : Values)
    → apply_patch (patch_optional_time_value set_created value current patch) v ≡ (
        let w = apply_patch patch v in
        record w { created = pick eqb_ℤ (λ t. t) value current w.created })
unfolding patch_optional_time_value
apply-time none current patch v = refl
apply-time (some x) current patch v = elim (Bool-cases (eqb_ℤ x current)) [
  | inl eq ↦ rw eq
  | inr ne ↦ rw ne (apply_patch-append patch (set_created x) v)
]

pub apply-title :
    (same : String → String → Bool) (value : Option String) (current : String)
    (patch : DocumentFields) (v : Values)
    → apply_patch (patch_optional_value same set_title value current patch) v ≡ (
        let w = apply_patch patch v in
        record w { title = pick same (λ t. t) value current w.title })
unfolding patch_optional_value
apply-title same none current patch v = refl
apply-title same (some x) current patch v = elim (Bool-cases (same x current)) [
  | inl eq ↦ rw eq
  | inr ne ↦ rw ne (apply_patch-append patch (set_title x) v)
]

pub apply-correspondent :
    (value : Option (Option Pointer)) (current : Option Pointer) (patch : DocumentFields)
    (v : Values)
    → apply_patch
        (patch_optional_value pointer_eq (λ p. set_correspondent (deref p)) value current patch)
        v
      ≡ (let w = apply_patch patch v in
          record w { correspondent = pick pointer_eq deref value current w.correspondent })
unfolding patch_optional_value
apply-correspondent none current patch v = refl
apply-correspondent (some x) current patch v = elim (Bool-cases (pointer_eq x current)) [
  | inl eq ↦ rw eq
  | inr ne ↦ rw ne (apply_patch-append patch (set_correspondent (deref x)) v)
]

pub apply-document_type :
    (value : Option (Option Pointer)) (current : Option Pointer) (patch : DocumentFields)
    (v : Values)
    → apply_patch
        (patch_optional_value pointer_eq (λ p. set_document_type (deref p)) value current patch)
        v
      ≡ (let w = apply_patch patch v in
          record w { document_type = pick pointer_eq deref value current w.document_type })
unfolding patch_optional_value
apply-document_type none current patch v = refl
apply-document_type (some x) current patch v = elim (Bool-cases (pointer_eq x current)) [
  | inl eq ↦ rw eq
  | inr ne ↦ rw ne (apply_patch-append patch (set_document_type (deref x)) v)
]

pub apply-storage_path :
    (value : Option (Option Pointer)) (current : Option Pointer) (patch : DocumentFields)
    (v : Values)
    → apply_patch
        (patch_optional_value pointer_eq (λ p. set_storage_path (deref p)) value current patch)
        v
      ≡ (let w = apply_patch patch v in
          record w { storage_path = pick pointer_eq deref value current w.storage_path })
unfolding patch_optional_value
apply-storage_path none current patch v = refl
apply-storage_path (some x) current patch v = elim (Bool-cases (pointer_eq x current)) [
  | inl eq ↦ rw eq
  | inr ne ↦ rw ne (apply_patch-append patch (set_storage_path (deref x)) v)
]

abbrev pub pick_tags : ExpOps → List ℕ → List ℕ → List ℕ → List ℕ
pick_tags ops keys doc_tags old =
    let tags = normalize_ids ops (ops.exp_keys keys) in
    if ops.exp_equal tags (normalize_ids ops doc_tags) then old else tags

pub apply-tags :
    (ops : ExpOps) (keys doc_tags : List ℕ) (patch : DocumentFields) (v : Values)
    → apply_patch (patch_tags ops keys doc_tags patch) v
      ≡ (let w = apply_patch patch v in record w { tags = pick_tags ops keys doc_tags w.tags })
unfolding patch_tags
apply-tags ops keys doc_tags patch v =
    let tags = normalize_ids ops (ops.exp_keys keys) in
    elim (Bool-cases (ops.exp_equal tags (normalize_ids ops doc_tags))) [
      | inl eq ↦ rw eq
      | inr ne ↦ rw ne (apply_patch-append patch (set_tags tags) v)
    ]
