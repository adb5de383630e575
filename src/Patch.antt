-- ===== src/Patch.antt =====
-- internal/cataloger/patchbuilder.go: facts are turned into the fields of a document that have to be
-- changed. The builder's `doc` is never written to; pointers that it makes get fresh addresses.
pub mod Tags
pub mod Values
pub mod Minimal
pub mod Resent
pub mod Build
pub mod Wanted
pub mod Coherent
use paperminer.Base.{
  ℕ, suc, ◌+◌, String, Bool, true, false, not, Option, none, some, List, [], ◌∷◌, ◌++◌, contains,
  ◌==◌, str_eq, eqb_ℤ, if◌then◌else◌,
}
use paperminer.Errors.{wrap}
use paperminer.Io.{Io, pure, ◌>>=◌, or_wrap}
use paperminer.Paperless.{
  Time, Pointer, Document, Object, FieldSetting, set_created, set_title, set_correspondent,
  set_document_type, set_storage_path, set_tags, DocumentFields,
}
use paperminer.Facts.{Facts}
use paperminer.Slices.{ExpOps}
use paperminer.Resolver.{Resolver, get_by_name, get_or_create_by_name}
use paperminer.Resolver.Providers.{ObjectResolvers}

unfoldable pub normalize_ids : ExpOps → List ℕ → List ℕ
normalize_ids ops [] = []
normalize_ids ops (id ∷ ids) = ops.exp_compact (ops.exp_sort (id ∷ ids))

-- `created` and the others are `none` where no fact was set. For a `**int64`, `some none` asks for
-- the field to be cleared. `tags` lists the keys of the map; `next_address` is the next free address.
pub record PatchBuilder : Type 0 where
  pub doc : Document
  pub created : Option Time
  pub title : Option String
  pub correspondent : Option (Option Pointer)
  pub document_type : Option (Option Pointer)
  pub storage_path : Option (Option Pointer)
  pub tags : List ℕ
  pub next_address : ℕ

-- `m[id] = struct{}{}` and `delete(m, id)`.
unfoldable pub add_key : ℕ → List ℕ → List ℕ
add_key id m = if contains m id then m else m ++ (id ∷ [])

unfoldable pub delete_key : ℕ → List ℕ → List ℕ
delete_key id [] = []
delete_key id (x ∷ m) = if x == id then delete_key id m else x ∷ delete_key id m

unfoldable pub add_keys : List ℕ → List ℕ → List ℕ
unfolding add_key
add_keys [] m = m
add_keys (id ∷ ids) m = add_keys ids (add_key id m)

-- Allocation: an address beyond those of the document's pointers.
abbrev beyond : Option Pointer → ℕ
beyond none = 0
beyond (some p) = suc p.address

unfoldable pub free_address : Document → ℕ
free_address d = beyond d.correspondent + beyond d.document_type + beyond d.storage_path

unfoldable pub new_patch_builder : Document → PatchBuilder
unfolding add_keys free_address
new_patch_builder doc = record {
  doc = doc;
  created = none;
  title = none;
  correspondent = none;
  document_type = none;
  storage_path = none;
  tags = add_keys doc.tags [];
  next_address = free_address doc;
}

unfoldable pub set_tag : ℕ → PatchBuilder → PatchBuilder
unfolding add_key
set_tag id b = record b { tags = add_key id b.tags }

unfoldable pub unset_tag : ℕ → PatchBuilder → PatchBuilder
unfolding delete_key
unset_tag id b = if contains b.tags id then record b { tags = delete_key id b.tags } else b

module _ {W : Type 0} where
  -- What `*dest` is set to; `address` is where the ID is kept.
  unfoldable pub set_object_fact :
      Resolver W Object → ℕ → Option String → Io W (Option (Option Pointer))
  set_object_fact resolver address none = pure none
  set_object_fact resolver address (some name) = if str_eq name "" then pure (some none) else (do
    obj ← get_or_create_by_name resolver name
    pure (some (some (record { address = address; value = obj.id }))))

  -- The inner loop over names, with the method that resolves a name and the one that uses its tag.
  unfoldable pub apply_tags :
      (String → Io W Object)
      → (ℕ → PatchBuilder → PatchBuilder)
      → List String
      → PatchBuilder
      → Io W PatchBuilder
  apply_tags resolve apply [] b = pure b
  apply_tags resolve apply (name ∷ names) b = do
    tag ← or_wrap (wrap "tag") (resolve name)
    apply_tags resolve apply names (apply tag.id b)

  -- The three object facts, in their order, and the assignments before them.
  unfoldable pub set_object_facts : ObjectResolvers W → Facts → PatchBuilder → Io W PatchBuilder
  unfolding set_object_fact
  set_object_facts resolvers facts b = do
    let address = b.next_address
    correspondent ←
        or_wrap (wrap "correspondent")
          (set_object_fact resolvers.correspondent address facts.correspondent)
    document_type ←
        or_wrap (wrap "document type")
          (set_object_fact resolvers.document_type (suc address) facts.document_type)
    storage_path ←
        or_wrap (wrap "storage path")
          (set_object_fact resolvers.storage_path (suc (suc address)) facts.storage_path)
    pure (record b {
      created = facts.created;
      title = facts.title;
      correspondent = correspondent;
      document_type = document_type;
      storage_path = storage_path;
      next_address = suc (suc (suc address));
    })

  -- An error leaves the builder half filled; the callers drop it then.
  unfoldable pub set_facts : ObjectResolvers W → Facts → PatchBuilder → Io W PatchBuilder
  unfolding set_object_facts apply_tags
  set_facts resolvers facts b = do
    b' ← set_object_facts resolvers facts b
    b'' ← apply_tags (get_or_create_by_name resolvers.tag) set_tag facts.set_tags b'
    apply_tags (get_by_name resolvers.tag) unset_tag facts.unset_tags b''

-- `==` on `*int64`.
abbrev pub pointer_eq : Option Pointer → Option Pointer → Bool
pointer_eq none none = true
pointer_eq none (some q) = false
pointer_eq (some p) none = false
pointer_eq (some p) (some q) = p.address == q.address

abbrev pub deref : Option Pointer → Option ℕ
deref none = none
deref (some p) = some p.value

-- `same` is `==` on `T`.
unfoldable pub patch_optional_value {ℓ} :
    {T : Type ℓ}
    → (T → T → Bool)
    → (T → FieldSetting)
    → Option T
    → T
    → DocumentFields
    → DocumentFields
patch_optional_value same set none current patch = patch
patch_optional_value same set (some value) current patch =
    if same value current then patch else patch ++ (set value ∷ [])

-- `time.Time.Equal` compares the instants.
unfoldable pub patch_optional_time_value :
    (Time → FieldSetting) → Option Time → Time → DocumentFields → DocumentFields
patch_optional_time_value set none current patch = patch
patch_optional_time_value set (some value) current patch =
    if eqb_ℤ value current then patch else patch ++ (set value ∷ [])

unfoldable pub patch_tags : ExpOps → List ℕ → List ℕ → DocumentFields → DocumentFields
unfolding normalize_ids
patch_tags ops keys doc_tags patch =
    let tags = normalize_ids ops (ops.exp_keys keys) in
    let orig_tags = normalize_ids ops doc_tags in
    if not (ops.exp_equal tags orig_tags) then patch ++ (set_tags tags ∷ []) else patch

unfoldable pub build : ExpOps → PatchBuilder → DocumentFields
unfolding patch_optional_value patch_optional_time_value patch_tags
build ops b =
    let p1 = patch_optional_time_value set_created b.created b.doc.created [] in
    let p2 = patch_optional_value str_eq set_title b.title b.doc.title p1 in
    let p3 =
      patch_optional_value pointer_eq (λ v. set_correspondent (deref v)) b.correspondent
        b.doc.correspondent p2 in
    let p4 =
      patch_optional_value pointer_eq (λ v. set_document_type (deref v)) b.document_type
        b.doc.document_type p3 in
    let p5 =
      patch_optional_value pointer_eq (λ v. set_storage_path (deref v)) b.storage_path
        b.doc.storage_path p4 in
    patch_tags ops b.tags b.doc.tags p5
