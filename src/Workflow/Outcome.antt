-- ===== src/Workflow/Outcome.antt =====
-- What handling one document does in all (`processDocument` and `processDocumentInner` of
-- internal/cataloger/workflow.go).
use paperminer.Base.{
  ◌+◌, ℤ, pos, ◌≡◌, refl, ◌≢◌, inl, inr, Bool-cases, false, not, ◌||◌, none, some, contains, ltb_ℤ,
  if◌then◌else◌,
}
use paperminer.Errors.{Err}
use paperminer.Io.{Result, ok, err}
use paperminer.Io.Laws.{>>=-eq_ok}
use paperminer.Paperless.{Document, DocumentFields}
use paperminer.Slices.{IsDocumented}
use paperminer.Patch.Values.{values_of, apply_patch}
use paperminer.Facter.{Context}
use paperminer.Updater.{
  Updater, new_updater, apply_facts, mark_failed, finish, is_permanent_error, do_update,
}
use paperminer.Updater.Outcome.{IsSent, do_update-clears_todo}
use paperminer.Task.{Task, load_task, record_result}
use paperminer.Task.Attempt.{process_document-eq_ok}
use paperminer.Workflow.{
  Environment, Workflow, updater_options, is_last_retry, process_document_inner, retry_delay,
  handle,
}

module _ {W File Doc : Type 0} (env : Environment W File Doc) (w : Workflow W Doc)
    (ctx : Context) where
  abbrev delay_of : Task → ℤ
  delay_of t = retry_delay w.poll_interval (1 + t.rec.retry_count)

  -- The ways in which a document is handled without an error. It is skipped; or a patch without the
  -- todo tag is sent and the success is recorded; or an error is recorded, with a new retry time.
  pub data IsHandled (doc : Document) : W → W → Type 0 where
    skipped : {s s' : W} → load_task env.tasks doc s ≡ (ok none, s') → IsHandled doc s s'
    updated :
        {s s' : W} (t : Task) (u : Updater W File) (patch : DocumentFields) (s1 a b s2 : W)
        → load_task env.tasks doc s ≡ (ok (some t), s1)
        → new_updater env.todo_first (updater_options env w t) s1 ≡ (ok u, a)
        → IsSent u patch b s2
        → contains (apply_patch patch (values_of u.document)).tags u.todo_tag.id ≡ false
        → env.tasks.store.upsert t.key (record_result t (ok tt) (delay_of t) (env.tasks.now s2)) s2
          ≡ (ok tt, s')
        → IsHandled doc s s'
    retried :
        {s s' : W} (t : Task) (e : Err) (s1 s2 : W)
        → load_task env.tasks doc s ≡ (ok (some t), s1)
        → process_document_inner env w ctx t s1 ≡ (err e, s2)
        → env.tasks.store.upsert t.key (record_result t (err e) (delay_of t) (env.tasks.now s2)) s2
          ≡ (ok tt, s')
        → IsHandled doc s s'

  -- The names of the two tags stand for two tags.
  abbrev pub AreApart : Type 0
  AreApart =
      (t : Task) (u : Updater W File) (s s' : W)
      → new_updater env.todo_first (updater_options env w t) s ≡ (ok u, s')
      → u.todo_tag.id ≢ u.failed_tag.id

  -- Handling a document without an error, with operations as documented and two tags that are apart,
  -- has one of three outcomes: it is skipped; or a patch was sent after which it has no todo tag, and
  -- success is recorded; or its error is recorded beside the time of the next try.
  pub handle-IsHandled :
      (doc : Document) (s s' : W)
      → IsDocumented env.ops
      → AreApart
      → handle env w ctx doc s ≡ (ok tt, s')
      → IsHandled doc s s'
  unfolding handle process_document_inner
  handle-IsHandled doc s s' d apart h =
      elim (process_document-eq_ok env.tasks doc (process_document_inner env w ctx)
        (retry_delay w.poll_interval) s s' h) [
          | inl waiting ↦ skipped waiting
          | inr (t, s1, loaded, saved) ↦
              inspect t s1 loaded (process_document_inner env w ctx t s1) refl saved
        ]
    where
      inspect :
          (t : Task) (s1 : W)
          → load_task env.tasks doc s ≡ (ok (some t), s1)
          → (a : Result (Unit {0}) × W) → process_document_inner env w ctx t s1 ≡ a
          → env.tasks.store.upsert t.key (record_result t a.0 (delay_of t) (env.tasks.now a.1)) a.1
            ≡ (ok tt, s')
          → IsHandled doc s s'
      inspect t s1 loaded (ok done, s2) e saved =
          let (u, a, made, rest) =
            >>=-eq_ok (new_updater env.todo_first (updater_options env w t)) _ s1 s2 done e in
          let (patch, b, sent, cleared) =
            do_update-clears_todo u env.ops env.fs ctx (is_last_retry w.retries_max t) a s2 d
              (apart t u s1 a made) rest in
          updated t u patch s1 a b s2 loaded made sent cleared saved
      inspect t s1 loaded (err x, s2) e saved = retried t x s1 s2 loaded e saved

  -- Once a document has failed as often as is allowed, the next failure marks it as failed, whatever
  -- the error; before, only a permanent error does, and any other error is handed on.
  pub process_document_inner_after_failure :
      (t : Task) (u : Updater W File) (e : Err) (s s1 s2 : W)
      → new_updater env.todo_first (updater_options env w t) s ≡ (ok u, s1)
      → apply_facts env.ops env.fs u ctx s1 ≡ (err e, s2)
      → process_document_inner env w ctx t s ≡ (
          if (not (ltb_ℤ (pos t.rec.retry_count) w.retries_max) || is_permanent_error e)
          then mark_failed env.ops u e s2
          else (err e, s2))
  unfolding process_document_inner do_update finish is_last_retry
  process_document_inner_after_failure t u e s s1 s2 made failed =
      elim (Bool-cases
        (not (ltb_ℤ (pos t.rec.retry_count) w.retries_max) || is_permanent_error e)) [
          | inl final ↦ rw made (rw failed (rw final refl))
          | inr again ↦ rw made (rw failed (rw again refl))
        ]
