-- ===== src/Patch/Tags.antt =====
-- The builder's tags are a set: what is in it after each operation, and the normal form of IDs.
use paperminer.Base.{
  ℕ, ◌≡◌, refl, ◌∙◌, sym, ap, ◌↔◌, not, ◌&&◌, ◌||◌, List, [], ◌∷◌, arith, Bool-cases, inl, inr,
  contains, contains-append, IsAscending, IsAscending-ext, ◌==◌,
}
use paperminer.Slices.{ExpOps, IsDocumented}
use paperminer.Paperless.{Document}
use paperminer.Patch.{
  normalize_ids, PatchBuilder, add_key, delete_key, add_keys, new_patch_builder, set_tag, unset_tag,
}

pub contains-add_key :
    (id : ℕ) (m : List ℕ) (a : ℕ) → contains (add_key id m) a ≡ (id == a || contains m a)
unfolding add_key
contains-add_key id m a = ground (arith, contains-append m (id ∷ []) a)

pub contains-delete_key :
    (id : ℕ) (m : List ℕ) (a : ℕ) → contains (delete_key id m) a ≡ (not (id == a) && contains m a)
unfolding delete_key
contains-delete_key id [] a = ground arith
contains-delete_key id (x ∷ m) a = ground (arith, contains-delete_key id m a)

contains-add_keys :
    (ids m : List ℕ) (a : ℕ) → contains (add_keys ids m) a ≡ (contains ids a || contains m a)
unfolding add_keys
contains-add_keys [] m a = refl
contains-add_keys (id ∷ ids) m a =
    ground (arith, contains-add_keys ids (add_key id m) a, contains-add_key id m a)

-- A new builder has the document's tags.
pub contains-new_patch_builder :
    (doc : Document) (a : ℕ) → contains (new_patch_builder doc).tags a ≡ contains doc.tags a
unfolding new_patch_builder
contains-new_patch_builder doc a = ground (arith, contains-add_keys doc.tags [] a)

pub contains-set_tag :
    (id : ℕ) (b : PatchBuilder) (a : ℕ)
    → contains (set_tag id b).tags a ≡ (id == a || contains b.tags a)
unfolding set_tag
contains-set_tag id b a = contains-add_key id b.tags a

pub contains-unset_tag :
    (id : ℕ) (b : PatchBuilder) (a : ℕ)
    → contains (unset_tag id b).tags a ≡ (not (id == a) && contains b.tags a)
unfolding unset_tag
contains-unset_tag id b a = ground (arith, contains-delete_key id b.tags a)

-- Neither method touches anything but the tags.
abbrev pub untagged : PatchBuilder → PatchBuilder
untagged b = record b { tags = [] }

pub untagged-unset_tag : (id : ℕ) (b : PatchBuilder) → untagged (unset_tag id b) ≡ untagged b
unfolding unset_tag
untagged-unset_tag id b = elim (Bool-cases (contains b.tags id)) [
  | inl here ↦ rw here
  | inr missing ↦ rw missing
]

module _ (ops : ExpOps) (d : IsDocumented ops) where
  pub contains-normalize_ids :
      (ids : List ℕ) (a : ℕ) → contains (normalize_ids ops ids) a ≡ contains ids a
  unfolding normalize_ids
  contains-normalize_ids [] a = refl
  contains-normalize_ids (id ∷ ids) a =
      d.contains-compact (ops.exp_sort (id ∷ ids)) a ∙ d.contains-sort (id ∷ ids) a

  pub normalize_ids-IsAscending : (ids : List ℕ) → IsAscending (normalize_ids ops ids)
  unfolding normalize_ids
  normalize_ids-IsAscending [] = tt
  normalize_ids-IsAscending (id ∷ ids) = d.compact-sort (id ∷ ids)

-- Two lists of IDs have the same normal form exactly if they have the same members, whatever
-- sorting and compacting functions are used on either side.
pub normalize_ids_iff :
    (ops ops' : ExpOps) (ids ids' : List ℕ)
    → IsDocumented ops
    → IsDocumented ops'
    → (normalize_ids ops ids ≡ normalize_ids ops' ids')
      ↔ ((a : ℕ) → contains ids a ≡ contains ids' a)
normalize_ids_iff ops ops' ids ids' d d' = (
  λ e a.
      sym (contains-normalize_ids ops d ids a)
      ∙ ap (λ l. contains l a) e
      ∙ contains-normalize_ids ops' d' ids' a,
  λ h.
      IsAscending-ext (normalize_ids ops ids) (normalize_ids ops' ids')
        (normalize_ids-IsAscending ops d ids) (normalize_ids-IsAscending ops' d' ids')
        λ a. contains-normalize_ids ops d ids a ∙ h a ∙ sym (contains-normalize_ids ops' d' ids' a),
)

-- The method of a loop, applied to each ID in turn.
abbrev pub apply_all : (ℕ → PatchBuilder → PatchBuilder) → List ℕ → PatchBuilder → PatchBuilder
apply_all apply [] b = b
apply_all apply (id ∷ ids) b = apply_all apply ids (apply id b)

pub contains-set_all :
    (ids : List ℕ) (b : PatchBuilder) (a : ℕ)
    → contains (apply_all set_tag ids b).tags a ≡ (contains ids a || contains b.tags a)
contains-set_all [] b a = refl
contains-set_all (id ∷ ids) b a =
    ground (arith, contains-set_all ids (set_tag id b) a, contains-set_tag id b a)

pub contains-unset_all :
    (ids : List ℕ) (b : PatchBuilder) (a : ℕ)
    → contains (apply_all unset_tag ids b).tags a ≡ (not (contains ids a) && contains b.tags a)
contains-unset_all [] b a = refl
contains-unset_all (id ∷ ids) b a =
    ground (arith, contains-unset_all ids (unset_tag id b) a, contains-unset_tag id b a)

pub untagged-set_all :
    (ids : List ℕ) (b : PatchBuilder) → untagged (apply_all set_tag ids b) ≡ untagged b
unfolding set_tag
untagged-set_all [] b = refl
untagged-set_all (id ∷ ids) b = untagged-set_all ids (set_tag id b)

pub untagged-unset_all :
    (ids : List ℕ) (b : PatchBuilder) → untagged (apply_all unset_tag ids b) ≡ untagged b
unfolding unset_tag
untagged-unset_all [] b = refl
untagged-unset_all (id ∷ ids) b = untagged-unset_all ids (unset_tag id b) ∙ untagged-unset_tag id b
