-- ===== src/Paperless.antt =====
-- The data of the Paperless client library (github.com/hansmi/paperhooks/pkg/client) that the
-- program reads and writes. The library is not in the repository: these are the fields that the
-- program uses, and its operations are parameters wherever they are called.
use paperminer.Base.{ℕ, ℤ, String, Bool, Option, List}

-- A `time.Time` as nanoseconds since the zero time. IDs are the non-negative primary keys.
abbrev pub Time : Type 0
Time = ℤ

-- A `*int64` that is not nil: `==` on pointers compares addresses.
pub record Pointer : Type 0 where
  pub address : ℕ
  pub value : ℕ

pub record Document : Type 0 where
  pub id : ℕ
  pub added : Time
  pub created : Time
  pub modified : Time
  pub title : String
  pub content : String
  pub correspondent : Option Pointer
  pub document_type : Option Pointer
  pub storage_path : Option Pointer
  pub tags : List ℕ

pub record DocumentMetadata : Type 0 where
  pub original_checksum : String
  pub original_size : ℤ
  pub has_archive_version : Bool
  pub archive_checksum : String
  pub archive_size : ℤ

-- `plclient.Tag`, `Correspondent`, `DocumentType`, `StoragePath`, `User` and `Group`, of which the
-- program uses the ID and the name.
pub record Object : Type 0 where
  pub id : ℕ
  pub name : String

-- A `DocumentFields` is the list of the settings that were made on it, the first one first;
-- `AsMap` is empty exactly if there is none.
pub data FieldSetting : Type 0 where
  set_created : Time → FieldSetting
  set_title : String → FieldSetting
  set_correspondent : Option ℕ → FieldSetting
  set_document_type : Option ℕ → FieldSetting
  set_storage_path : Option ℕ → FieldSetting
  set_tags : List ℕ → FieldSetting

abbrev pub DocumentFields : Type 0
DocumentFields = List FieldSetting
