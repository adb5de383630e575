-- ===== src/Task/Backoff.antt =====
-- A document that failed is left alone until its retry time (`loadTask` of
-- internal/cataloger/task.go), and a conflict is noticed (`CheckModified`).
use paperminer.Base.{
  ℕ, ◌+◌, ℤ, ◌+ℤ◌, ◌<ℤ◌, ◌≡◌, refl, ◌∙◌, sym, ap, subst, ◌≢◌, Bool, true, false, Option, none, some,
  List, arith,
}
use paperminer.Errors.{Err, wrap}
use paperminer.Io.{Io, Result, ok, err, or_wrap}
use paperminer.Io.Laws.{result_of, state_of, >>=-eq_ok, or_wrap-eq_ok}
use paperminer.Paperless.{Time, Document, DocumentMetadata}
use paperminer.Store.{DocumentTask}
use paperminer.Task.Records.{KeepsRecords}
use paperminer.Task.Attempt.{process_document-loaded, load_task-eq_ok, with_record-frame}
use paperminer.Task.{
  DocSnapshot, new_doc_snapshot, TaskOptions, Task, zero_time, is_waiting, with_record, new_task,
  compared, load_task, check_modified, record_result, process_document,
}

is_waiting_until :
    (begin : Time) (rec : DocumentTask)
    → rec.retry_after ≢ zero_time
    → begin <ℤ rec.retry_after
    → is_waiting begin rec ≡ true
unfolding is_waiting
is_waiting_until begin rec ne h = ground arith

with_record-waiting :
    (doc : Document) (metadata : DocumentMetadata) (begin : Time) (rec : DocumentTask)
    → rec.retry_after ≢ zero_time
    → begin <ℤ rec.retry_after
    → with_record (new_task doc metadata begin) (ok rec) ≡ ok none
unfolding with_record new_task
with_record-waiting doc metadata begin rec ne h = rw (is_waiting_until begin rec ne h)

new_task-key :
    (doc : Document) (metadata : DocumentMetadata) (b c : Time)
    → ((new_task doc metadata b).key ≡ (new_task doc metadata c).key)
      × ((new_task doc metadata b).metadata ≡ metadata)
unfolding new_task
new_task-key doc metadata b c = (refl, refl)

compared-eq_ok :
    {W : Type 0} (r : Result Bool) (s s' : W)
    → compared r s ≡ (ok tt, s')
    → (r ≡ ok false) × (s ≡ s')
unfolding compared
compared-eq_ok (ok true) s s' h = absurd (cc (result_of h))
compared-eq_ok (ok false) s s' h = (refl, state_of h)
compared-eq_ok (err e) s s' h = absurd (cc (result_of h))

module _ {W : Type 0} (opts : TaskOptions W) where
  load_task-waiting :
      (doc : Document) (metadata : DocumentMetadata) (rec : DocumentTask) (s s1 s2 : W)
      → opts.client.get_document_metadata doc.id s ≡ (ok metadata, s1)
      → opts.store.get (new_task doc metadata (opts.now s1)).key s1 ≡ (ok rec, s2)
      → rec.retry_after ≢ zero_time
      → opts.now s1 <ℤ rec.retry_after
      → load_task opts doc s ≡ (ok none, s2)
  unfolding load_task
  load_task-waiting doc metadata rec s s1 s2 got found ne early =
      rw got (rw found (rw (with_record-waiting doc metadata (opts.now s1) rec ne early)))

  -- Before the retry time of its record a document is skipped: nothing is run for it, and neither
  -- the database nor the server is changed by more than the two reads.
  pub process_document-waiting :
      (doc : Document) (fn : Task → Io W (Unit {0})) (calc_retry_delay : ℕ → ℤ)
      (metadata : DocumentMetadata) (rec : DocumentTask) (s s1 s2 : W)
      → opts.client.get_document_metadata doc.id s ≡ (ok metadata, s1)
      → opts.store.get (new_task doc metadata (opts.now s1)).key s1 ≡ (ok rec, s2)
      → rec.retry_after ≢ zero_time
      → opts.now s1 <ℤ rec.retry_after
      → process_document opts doc fn calc_retry_delay s ≡ (ok tt, s2)
  unfolding process_document
  process_document-waiting doc fn calc metadata rec s s1 s2 got found ne early =
      rw (load_task-waiting doc metadata rec s s1 s2 got found ne early)

  -- After a failed attempt that was saved, the document is left alone until the delay is over. A later
  -- call, with whatever function and in whatever state, does no more than its two reads if the
  -- metadata are the same, the document's record is still the one that was saved, and the clock is
  -- before the retry time.
  pub process_document_backs_off :
      (look : List ℕ → W → Option DocumentTask) (doc : Document) (fn fn' : Task → Io W (Unit {0}))
      (calc calc' : ℕ → ℤ) (t : Task) (e : Err) (s s1 s2 s' u u' : W)
      → KeepsRecords opts look
      → load_task opts doc s ≡ (ok (some t), s1)
      → fn t s1 ≡ (err e, s2)
      → process_document opts doc fn calc s ≡ (ok tt, s')
      → opts.client.get_document_metadata doc.id u ≡ (ok t.metadata, u')
      → look t.key u' ≡ look t.key s'
      → opts.now s2 +ℤ calc (1 + t.rec.retry_count) ≢ zero_time
      → opts.now u' <ℤ opts.now s2 +ℤ calc (1 + t.rec.retry_count)
      → process_document opts doc fn' calc' u ≡ (ok tt, (opts.store.get t.key u').1)
  unfolding record_result
  process_document_backs_off look doc fn fn' calc calc' t e s s1 s2 s' u u' db loaded failed h again
        unchanged ne early =
      let saved = process_document-loaded opts doc fn calc t s s1 s' loaded h in
      let (metadata, b, found, _, got, made) = load_task-eq_ok opts doc t s s1 loaded in
      let (key, same, _, _) = with_record-frame (new_task doc metadata (opts.now b)) t found made in
      let rec = record_result t (err e) (calc (1 + t.rec.retry_count)) (opts.now s2) in
      let key_again =
        key
        ∙ ap (λ m. (new_task doc m (opts.now b)).key)
            (sym (same ∙ (new_task-key doc metadata (opts.now b) (opts.now b)).1))
        ∙ (new_task-key doc t.metadata (opts.now b) (opts.now u')).0 in
      let written : opts.store.upsert t.key rec s2 ≡ (ok tt, s') = rw failed at saved in
      let there : look t.key u' ≡ some rec =
        unchanged
        ∙ ap (look t.key) (sym (state_of written))
        ∙ db.stores t.key rec s2 (result_of written) in
      let answer : opts.store.get t.key u' ≡ (ok rec, (opts.store.get t.key u').1) =
        ap (λ x. (x, (opts.store.get t.key u').1)) (db.finds t.key rec u' there) in
      process_document-waiting doc fn' calc' t.metadata rec u u' (opts.store.get t.key u').1 again
        (subst (λ k. opts.store.get k u' ≡ (ok rec, (opts.store.get t.key u').1)) key_again answer)
        ne early

  -- What was read for the document when its task was loaded in b, and again from s to s', is the same.
  pub record IsUnmodified (before : Document) (b s s' : W) : Type 0 where
    pub old_metadata : DocumentMetadata
    pub doc : Document
    pub metadata : DocumentMetadata
    pub b1 : W
    pub s1 : W
    pub was_read : opts.client.get_document_metadata before.id b ≡ (ok old_metadata, b1)
    pub document_read : opts.client.get_document before.id s ≡ (ok doc, s1)
    pub metadata_read : opts.client.get_document_metadata before.id s1 ≡ (ok metadata, s')
    pub id : before.id ≡ doc.id
    pub added : before.added ≡ doc.added
    pub created : before.created ≡ doc.created
    pub modified : before.modified ≡ doc.modified
    pub title : before.title ≡ doc.title
    pub content : before.content ≡ doc.content
    pub original_checksum : old_metadata.original_checksum ≡ metadata.original_checksum
    pub has_archive_version : old_metadata.has_archive_version ≡ metadata.has_archive_version
    pub archive_checksum : old_metadata.archive_checksum ≡ metadata.archive_checksum

  -- The conflict check of a task that was loaded passes only if the document and its metadata, read
  -- once more, are as they were when the task was loaded: its ID, its three times, title, content,
  -- both checksums, and whether there is an archived version. `json_diff` is to be empty for equal
  -- snapshots alone.
  pub check_modified-eq_ok :
      (before : Document) (t : Task) (b b' s s' : W)
      → ((x y : DocSnapshot) → opts.json_diff x y ≡ ok false → x ≡ y)
      → load_task opts before b ≡ (ok (some t), b')
      → check_modified opts t s ≡ (ok tt, s')
      → IsUnmodified before b s s'
  unfolding check_modified new_doc_snapshot new_task
  check_modified-eq_ok before t b b' s s' exact loaded h =
      let (old, b1, found, read, _, made) = load_task-eq_ok opts before t b b' loaded in
      let (_, _, is_doc, is_snapshot) =
        with_record-frame (new_task before old (opts.now b1)) t found made in
      let (doc, s1, got, rest) =
        >>=-eq_ok
          (or_wrap (wrap "getting document for conflict check") (opts.client.get_document t.doc.id))
          _ s s' tt h in
      let (metadata, s2, got', last) =
        >>=-eq_ok
          (or_wrap (wrap "getting document metadata for conflict check")
            (opts.client.get_document_metadata t.doc.id))
          _ s1 s' tt rest in
      let (same, stays) =
        compared-eq_ok (opts.json_diff t.snapshot (new_doc_snapshot doc metadata)) s2 s' last in
      let e : new_doc_snapshot before old ≡ new_doc_snapshot doc metadata =
        sym is_snapshot ∙ exact t.snapshot (new_doc_snapshot doc metadata) same in
      record {
        old_metadata = old;
        doc = doc;
        metadata = metadata;
        b1 = b1;
        s1 = s1;
        was_read = read;
        document_read =
            subst (λ (d : Document). opts.client.get_document d.id s ≡ (ok doc, s1)) is_doc
              (or_wrap-eq_ok (wrap "getting document for conflict check")
                (opts.client.get_document t.doc.id) s s1 doc got);
        metadata_read =
            subst (λ (d : Document). opts.client.get_document_metadata d.id s1 ≡ (ok metadata, s'))
              is_doc
              (or_wrap-eq_ok (wrap "getting document metadata for conflict check")
                  (opts.client.get_document_metadata t.doc.id) s1 s2 metadata got'
                ∙ ap (λ w. (ok metadata, w)) stays);
        id = ap (λ (x : DocSnapshot). x.id) e;
        added = ap (λ (x : DocSnapshot). x.added) e;
        created = ap (λ (x : DocSnapshot). x.created) e;
        modified = ap (λ (x : DocSnapshot). x.modified) e;
        title = ap (λ (x : DocSnapshot). x.title) e;
        content = ap (λ (x : DocSnapshot). x.content) e;
        original_checksum = ap (λ (x : DocSnapshot). x.original_checksum) e;
        has_archive_version = ap (λ (x : DocSnapshot). x.has_archive_version) e;
        archive_checksum = ap (λ (x : DocSnapshot). x.archive_checksum) e;
      }
