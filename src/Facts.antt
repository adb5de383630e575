-- ===== src/Facts.antt =====
-- facts.go: what a document facter found out about a document.
use paperminer.Base.{String, Bool, true, false, ◌&&◌, Option, none, some, List, [], ◌∷◌}
use paperminer.Paperless.{Time}

pub record Facts : Type 0 where
  pub reporter : Option String
  pub title : Option String
  pub created : Option Time
  pub document_type : Option String
  pub correspondent : Option String
  pub storage_path : Option String
  pub set_tags : List String
  pub unset_tags : List String

abbrev pub is_nil {ℓ} : {A : Type ℓ} → Option A → Bool
is_nil none = true
is_nil (some a) = false

abbrev pub is_empty_slice {ℓ} : {A : Type ℓ} → List A → Bool
is_empty_slice [] = true
is_empty_slice (x ∷ xs) = false

-- `(*Facts).IsEmpty`.
unfoldable pub is_empty : Facts → Bool
is_empty f =
    is_nil f.title
    && is_nil f.document_type
    && is_nil f.correspondent
    && is_nil f.storage_path
    && is_nil f.created
    && is_empty_slice f.set_tags
    && is_empty_slice f.unset_tags
