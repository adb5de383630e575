-- ===== src/Patch/Coherent.antt =====
-- `setFacts` of internal/cataloger/patchbuilder.go keeps each ID at a fresh address.
use mathlib.Core.Option.{some-injective}
use paperminer.Base.{
  ℕ, suc, ◌<◌, ◌≡◌, ◌∙◌, sym, ap, String, Bool-cases, inl, inr, Option, none, some, arith, str_eq,
}
use paperminer.Paperless.{Pointer, Document, Object}
use paperminer.Facts.{Facts}
use paperminer.Resolver.{Resolver}
use paperminer.Resolver.Providers.{ObjectResolvers}
use paperminer.Patch.{PatchBuilder, new_patch_builder}
use paperminer.Patch.Build.{IsCoherent, IsCoherentBuilder}
use paperminer.Patch.Wanted.{IsObjectFact, AreApplied}

-- The addresses from `next_address` on are not in use.
pub record IsFresh (b : PatchBuilder) : Type 0 where
  pub correspondent : (q : Pointer) → b.doc.correspondent ≡ some q → q.address < b.next_address
  pub document_type : (q : Pointer) → b.doc.document_type ≡ some q → q.address < b.next_address
  pub storage_path : (q : Pointer) → b.doc.storage_path ≡ some q → q.address < b.next_address

pub new_patch_builder-IsFresh : (doc : Document) → IsFresh (new_patch_builder doc)
unfolding new_patch_builder
new_patch_builder-IsFresh doc = record {
  correspondent = λ q e. ground arith;
  document_type = λ q e. ground arith;
  storage_path = λ q e. ground arith;
}

module _ {W : Type 0} where
  fact-IsCoherent :
      (r : Resolver W Object) (address : ℕ) (name : Option String) (v : Option (Option Pointer))
      (s u : W) (current : Option Pointer)
      → IsObjectFact r address name v s u
      → ((q : Pointer) → current ≡ some q → q.address < address)
      → IsCoherent v current
  fact-IsCoherent r address none v s u current f below p q hv hq same = absurd (cc (f.0, hv))
  fact-IsCoherent r address (some name) v s u current f below p q hv hq same =
      elim (Bool-cases (str_eq name "")) [
        | inl blank ↦ absurd (cc (hv, (rw blank at f).0))
        | inr given ↦
            let (obj, _, e) = rw given at f in
            let at : p.address ≡ address =
              ap (λ (x : Pointer). x.address)
                (some-injective _ _ (some-injective _ _ (sym hv ∙ e))) in
            absurd (omega (arith, below q hq))
      ]

  -- After `setFacts` on a fresh builder, pointers that are equal point to the same ID.
  pub set_facts-IsCoherentBuilder :
      (rs : ObjectResolvers W) (facts : Facts) (b b' : PatchBuilder) (s u : W)
      → IsFresh b
      → AreApplied rs facts b b' s u
      → IsCoherentBuilder b'
  set_facts-IsCoherentBuilder rs facts b b' s u fresh a =
      let n = b.next_address in
      record {
        correspondent =
            fact-IsCoherent rs.correspondent n facts.correspondent b'.correspondent s a.s1 _
              a.correspondent (λ q e. fresh.correspondent q (rw (sym a.doc) e));
        document_type =
            fact-IsCoherent rs.document_type (suc n) facts.document_type b'.document_type a.s1 a.s2
              _ a.document_type (λ q e. omega (arith, fresh.document_type q (rw (sym a.doc) e)));
        storage_path =
            fact-IsCoherent rs.storage_path (suc (suc n)) facts.storage_path b'.storage_path a.s2
              a.s3 _ a.storage_path (λ q e. omega (arith, fresh.storage_path q (rw (sym a.doc) e)));
      }
