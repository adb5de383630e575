-- ===== src/Task.antt =====
-- internal/cataloger/task.go: the record that the database keeps of each document, and one attempt
-- at processing it.
pub mod Attempt
pub mod Records
pub mod Backoff
use paperminer.Base.{
  ℕ, suc, ◌+◌, ℤ, pos, ◌+ℤ◌, String, Bool, true, false, not, ◌&&◌, Option, none, some, List, [],
  ◌∷◌, ◌++◌, ltb_ℤ, eqb_ℤ, if◌then◌else◌,
}
use paperminer.Errors.{
  Err, wrap, detail, concurrent_modification, store_not_found, is_error, error_text,
}
use paperminer.Io.{Io, Result, ok, err, pure, fail, lift, ◌>>=◌, ◌>>◌, or_wrap}
use paperminer.Paperless.{Time, Document, DocumentMetadata}
use paperminer.Store.{DocumentTask, DocumentTaskAttempt, key}

pub record DocSnapshot : Type 0 where
  pub id : ℕ
  pub added : Time
  pub created : Time
  pub modified : Time
  pub title : String
  pub content : String
  pub original_checksum : String
  pub has_archive_version : Bool
  pub archive_checksum : String

unfoldable pub new_doc_snapshot : Document → DocumentMetadata → DocSnapshot
new_doc_snapshot doc metadata = record {
  id = doc.id;
  added = doc.added;
  created = doc.created;
  modified = doc.modified;
  title = doc.title;
  content = doc.content;
  original_checksum = metadata.original_checksum;
  has_archive_version = metadata.has_archive_version;
  archive_checksum = metadata.archive_checksum;
}

-- The database: `get` fails with `bolthold.ErrNotFound` where there is no record.
pub record TaskStore (W : Type 0) : Type 0 where
  pub get : List ℕ → Io W DocumentTask
  pub upsert : List ℕ → DocumentTask → Io W (Unit {0})

pub record TaskClient (W : Type 0) : Type 0 where
  pub get_document : ℕ → Io W Document
  pub get_document_metadata : ℕ → Io W DocumentMetadata

-- `now` is the clock. `json_diff` stands for the conversion of two snapshots to JSON
-- (`convertToJsonNode`) and their comparison by github.com/josephburnett/jd: whether they differ.
pub record TaskOptions (W : Type 0) : Type 0 where
  pub store : TaskStore W
  pub client : TaskClient W
  pub now : W → Time
  pub json_diff : DocSnapshot → DocSnapshot → Result Bool

pub record Task : Type 0 where
  pub doc : Document
  pub metadata : DocumentMetadata
  pub snapshot : DocSnapshot
  pub begin : Time
  pub key : List ℕ
  pub rec : DocumentTask

abbrev pub zero_time : Time
zero_time = pos 0

unfoldable pub fresh_record : Document → DocumentMetadata → DocumentTask
fresh_record doc metadata = record {
  id = doc.id;
  added = doc.added;
  modified = doc.modified;
  original_checksum = metadata.original_checksum;
  archive_checksum = metadata.archive_checksum;
  record_created = zero_time;
  record_updated = zero_time;
  retry_count = 0;
  retry_after = zero_time;
  attempts = [];
}

-- `!retryAfter.IsZero() && retryAfter.After(t.begin)`.
unfoldable pub is_waiting : Time → DocumentTask → Bool
is_waiting begin rec = not (eqb_ℤ rec.retry_after zero_time) && ltb_ℤ begin rec.retry_after

-- The task once the answer of `Store.Get` is there; `none` is a task that is not yet ready.
unfoldable pub with_record : Task → Result DocumentTask → Result (Option Task)
unfolding is_waiting
with_record t (ok rec) =
    if is_waiting t.begin rec then ok none else ok (some (record t { rec = rec }))
with_record t (err e) =
    if is_error e store_not_found
    then ok (some (record t { rec = record t.rec { record_created = t.begin } }))
    else err (wrap "getting record" e)

unfoldable pub new_task : Document → DocumentMetadata → Time → Task
unfolding fresh_record new_doc_snapshot
new_task doc metadata begin = record {
  doc = doc;
  metadata = metadata;
  snapshot = new_doc_snapshot doc metadata;
  begin = begin;
  key = key (fresh_record doc metadata);
  rec = fresh_record doc metadata;
}

-- The record after an attempt that ended at `now`.
unfoldable pub record_result : Task → Result (Unit {0}) → ℤ → Time → DocumentTask
record_result t (ok done) retry_after now = record t.rec {
  record_updated = now;
  attempts =
      t.rec.attempts
      ++ (record { begin = t.begin; finish = now; success = true; message = "" } ∷ []);
}
record_result t (err e) retry_after now = record t.rec {
  retry_count = suc t.rec.retry_count;
  retry_after = now +ℤ retry_after;
  record_updated = now;
  attempts =
      t.rec.attempts
      ++ (record { begin = t.begin; finish = now; success = false; message = error_text e } ∷ []);
}

module _ {W : Type 0} where
  compared : Result Bool → Io W (Unit {0})
  compared (ok true) = fail (detail concurrent_modification "snapshots differ")
  compared (ok false) = pure tt
  compared (err e) = fail e

module _ {W : Type 0} (opts : TaskOptions W) where
  unfoldable pub load_task : Document → Io W (Option Task)
  unfolding with_record
  load_task doc = do
    metadata ← or_wrap (wrap "getting document metadata") (opts.client.get_document_metadata doc.id)
    λ s.
        let t = new_task doc metadata (opts.now s) in
        let (found, s') = opts.store.get t.key s in (with_record t found, s')

  unfoldable pub check_modified : Task → Io W (Unit {0})
  unfolding compared
  check_modified t = do
    cur_doc ←
        or_wrap (wrap "getting document for conflict check") (opts.client.get_document t.doc.id)
    cur_metadata ←
        or_wrap (wrap "getting document metadata for conflict check")
          (opts.client.get_document_metadata t.doc.id)
    compared (opts.json_diff t.snapshot (new_doc_snapshot cur_doc cur_metadata))

  unfoldable pub save_result : Task → Result (Unit {0}) → ℤ → Io W (Unit {0})
  save_result t result retry_after s =
      or_wrap (wrap "inserting/updating record")
        (opts.store.upsert t.key (record_result t result retry_after (opts.now s))) s

  -- The call of `fn`, and the saving of its result.
  attempt : (Task → Io W (Unit {0})) → (ℕ → ℤ) → Option Task → Io W (Unit {0})
  attempt fn calc_retry_delay none s = pure tt s
  attempt fn calc_retry_delay (some t) s =
      let (r, s') = fn t s in
      or_wrap (wrap "saving processing result")
        (save_result t r (calc_retry_delay (1 + t.rec.retry_count))) s'

  unfoldable pub process_document : Document → (Task → Io W (Unit {0})) → (ℕ → ℤ) → Io W (Unit {0})
  unfolding attempt
  process_document doc fn calc_retry_delay = do t ← load_task doc; attempt fn calc_retry_delay t
