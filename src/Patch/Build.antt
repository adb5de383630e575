-- ===== src/Patch/Build.antt =====
-- `build` of internal/cataloger/patchbuilder.go against the specification in `Values`.
use mathlib.Core.Option.{get_or}
use paperminer.Base.{
  ℕ, ◌≡◌, refl, ◌∙◌, sym, ap, subst, String, Bool-cases, inl, inr, Option, none, some, List, arith,
  contains, eqb_ℤ, eqb_ℤ_iff, str_eq, eq_iff,
}
use paperminer.Paperless.{Time, Pointer, Document}
use paperminer.Slices.{ExpOps, IsDocumented}
use paperminer.Patch.{normalize_ids, PatchBuilder, pointer_eq, deref, build}
use paperminer.Patch.Tags.{contains-normalize_ids, untagged}
use paperminer.Patch.Values.{
  Values, values_of, apply_patch, pick, pick_tags, apply-time, apply-title, apply-correspondent,
  apply-document_type, apply-storage_path, apply-tags,
}

-- The document after the patch, field by field.
abbrev applied : ExpOps → PatchBuilder → Values
applied ops b = record {
  created = pick eqb_ℤ (λ t. t) b.created b.doc.created b.doc.created;
  title = pick str_eq (λ t. t) b.title b.doc.title b.doc.title;
  correspondent =
      pick pointer_eq deref b.correspondent b.doc.correspondent (deref b.doc.correspondent);
  document_type =
      pick pointer_eq deref b.document_type b.doc.document_type (deref b.doc.document_type);
  storage_path = pick pointer_eq deref b.storage_path b.doc.storage_path (deref b.doc.storage_path);
  tags = pick_tags ops b.tags b.doc.tags b.doc.tags;
}

apply_patch-build :
    (ops : ExpOps) (b : PatchBuilder) → apply_patch (build ops b) (values_of b.doc) ≡ applied ops b
unfolding build
apply_patch-build ops b = rw (
  apply-tags, apply-storage_path, apply-document_type, apply-correspondent, apply-title, apply-time,
)

-- Pointers that are equal point to the same ID.
abbrev pub IsCoherent : Option (Option Pointer) → Option Pointer → Type 0
IsCoherent value current =
    (p q : Pointer)
    → value ≡ some (some p)
    → current ≡ some q
    → p.address ≡ q.address
    → p.value ≡ q.value

pub record IsCoherentBuilder (b : PatchBuilder) : Type 0 where
  pub correspondent : IsCoherent b.correspondent b.doc.correspondent
  pub document_type : IsCoherent b.document_type b.doc.document_type
  pub storage_path : IsCoherent b.storage_path b.doc.storage_path

-- Coherence does not depend on the tags.
pub IsCoherentBuilder-untagged :
    (b b' : PatchBuilder) → untagged b ≡ untagged b' → IsCoherentBuilder b → IsCoherentBuilder b'
IsCoherentBuilder-untagged b b' e c = record {
  correspondent =
      subst (λ (q : PatchBuilder). IsCoherent q.correspondent q.doc.correspondent) e
        c.correspondent;
  document_type =
      subst (λ (q : PatchBuilder). IsCoherent q.document_type q.doc.document_type) e
        c.document_type;
  storage_path =
      subst (λ (q : PatchBuilder). IsCoherent q.storage_path q.doc.storage_path) e c.storage_path;
}

-- What the facts in the builder ask for.
pub record IsWanted (b : PatchBuilder) (v : Values) : Type 0 where
  pub created : v.created ≡ get_or b.created b.doc.created
  pub title : v.title ≡ get_or b.title b.doc.title
  pub correspondent : v.correspondent ≡ deref (get_or b.correspondent b.doc.correspondent)
  pub document_type : v.document_type ≡ deref (get_or b.document_type b.doc.document_type)
  pub storage_path : v.storage_path ≡ deref (get_or b.storage_path b.doc.storage_path)
  pub tags : (a : ℕ) → contains v.tags a ≡ contains b.tags a

pick-time :
    (value : Option Time) (current : Time)
    → pick eqb_ℤ (λ t. t) value current current ≡ get_or value current
pick-time none current = refl
pick-time (some x) current = ground (arith, eqb_ℤ_iff x current)

pick-title :
    (value : Option String) (current : String)
    → pick str_eq (λ t. t) value current current ≡ get_or value current
pick-title none current = refl
pick-title (some x) current = ground (arith, eq_iff x current)

pick-pointer :
    (value : Option (Option Pointer)) (current : Option Pointer)
    → IsCoherent value current
    → pick pointer_eq deref value current (deref current) ≡ deref (get_or value current)
pick-pointer none current h = refl
pick-pointer (some none) none h = refl
pick-pointer (some none) (some q) h = refl
pick-pointer (some (some p)) none h = refl
pick-pointer (some (some p)) (some q) h = ground (arith, h p q refl refl)

module _ (ops : ExpOps) (d : IsDocumented ops) where
  contains-pick_tags :
      (keys doc_tags : List ℕ) (a : ℕ)
      → contains (pick_tags ops keys doc_tags doc_tags) a ≡ contains keys a
  contains-pick_tags keys doc_tags a =
      let tags = normalize_ids ops (ops.exp_keys keys) in
      let orig = normalize_ids ops doc_tags in
      let known = contains-normalize_ids ops d (ops.exp_keys keys) a ∙ d.contains-keys keys a in
      elim (Bool-cases (ops.exp_equal tags orig)) [
        | inl eq ↦ rw eq (
            sym (contains-normalize_ids ops d doc_tags a)
            ∙ ap (λ l. contains l a) (sym ((d.equal_iff tags orig).0 eq))
            ∙ known)
        | inr ne ↦ rw ne known
      ]

-- The patch takes the document to what the facts ask for, and leaves the rest of it as it is.
pub build-IsWanted :
    (ops : ExpOps) (b : PatchBuilder)
    → IsDocumented ops
    → IsCoherentBuilder b
    → IsWanted b (apply_patch (build ops b) (values_of b.doc))
build-IsWanted ops b d c = rw (apply_patch-build ops b) (record {
  created = pick-time b.created b.doc.created;
  title = pick-title b.title b.doc.title;
  correspondent = pick-pointer b.correspondent b.doc.correspondent c.correspondent;
  document_type = pick-pointer b.document_type b.doc.document_type c.document_type;
  storage_path = pick-pointer b.storage_path b.doc.storage_path c.storage_path;
  tags = contains-pick_tags ops d b.tags b.doc.tags;
})

-- The tags after the patch, for a builder of the document `doc`.
pub build-tags :
    (ops : ExpOps) (b : PatchBuilder) (doc : Document) (a : ℕ)
    → IsDocumented ops
    → b.doc ≡ doc
    → contains (apply_patch (build ops b) (values_of doc)).tags a ≡ contains b.tags a
build-tags ops b doc a d e =
    rw (sym e) (rw (apply_patch-build ops b) (contains-pick_tags ops d b.tags b.doc.tags a))
