-- ===== src/Task/Attempt.antt =====
-- What an attempt leaves in the database (`SaveResult` and `processDocument` of
-- internal/cataloger/task.go).
use mathlib.Core.Option.{some-injective}
use paperminer.Base.{ℕ, ◌+◌, ℤ, ◌≡◌, ◌∙◌, ap, ◌⊎◌, Bool-cases, inl, inr, Option, none, some}
use paperminer.Errors.{wrap, store_not_found, is_error}
use paperminer.Io.{Io, Result, ok, err, or_wrap}
use paperminer.Io.Laws.{result_of, state_of, ok_injective, >>=-eq_ok, or_wrap-eq_ok}
use paperminer.Paperless.{Document, DocumentMetadata}
use paperminer.Store.{DocumentTask}
use paperminer.Task.{
  TaskOptions, Task, is_waiting, with_record, new_task, load_task, record_result, save_result,
  attempt, process_document,
}

pub with_record-frame :
    (t t' : Task) (found : Result DocumentTask)
    → with_record t found ≡ ok (some t')
    → (t'.key ≡ t.key) × (t'.metadata ≡ t.metadata) × (t'.doc ≡ t.doc) × (t'.snapshot ≡ t.snapshot)
unfolding with_record
with_record-frame t t' (ok rec) h = elim (Bool-cases (is_waiting t.begin rec)) [
  | inl waiting ↦ absurd (cc (ok_injective (rw waiting at h)))
  | inr ready ↦
      let e = some-injective _ _ (ok_injective (rw ready at h)) in (cc e, cc e, cc e, cc e)
]
with_record-frame t t' (err e) h = elim (Bool-cases (is_error e store_not_found)) [
  | inl missing ↦
      let e = some-injective _ _ (ok_injective (rw missing at h)) in (cc e, cc e, cc e, cc e)
  | inr other ↦ absurd (cc (rw other at h))
]

module _ {W : Type 0} (opts : TaskOptions W) where
  -- The answer of the database, and the task that it makes.
  pub load_task-eq_ok :
      (doc : Document) (t : Task) (s s' : W)
      → load_task opts doc s ≡ (ok (some t), s')
      → (metadata : DocumentMetadata) × (s1 : W) × (found : Result DocumentTask)
        × (opts.client.get_document_metadata doc.id s ≡ (ok metadata, s1))
        × (opts.store.get (new_task doc metadata (opts.now s1)).key s1 ≡ (found, s'))
        × (with_record (new_task doc metadata (opts.now s1)) found ≡ ok (some t))
  unfolding load_task
  load_task-eq_ok doc t s s' h =
      let (metadata, s1, got, rest) =
        >>=-eq_ok
          (or_wrap (wrap "getting document metadata") (opts.client.get_document_metadata doc.id)) _
          s s' (some t) h in
      (
        metadata,
        s1,
        (opts.store.get (new_task doc metadata (opts.now s1)).key s1).0,
        or_wrap-eq_ok (wrap "getting document metadata") (opts.client.get_document_metadata doc.id)
            s s1 metadata got,
        ap (λ w. ((opts.store.get (new_task doc metadata (opts.now s1)).key s1).0, w))
            (state_of rest),
        result_of rest,
      )

  -- What an attempt at `t` saves.
  abbrev pub IsSaved : Task → (Task → Io W (Unit {0})) → (ℕ → ℤ) → W → W → Type 0
  IsSaved t fn calc_retry_delay s s' =
      let (r, s2) = fn t s in
      opts.store.upsert t.key
        (record_result t r (calc_retry_delay (1 + t.rec.retry_count)) (opts.now s2)) s2
      ≡ (ok tt, s')

  attempt-eq_ok :
      (t : Task) (fn : Task → Io W (Unit {0})) (calc : ℕ → ℤ) (s s' : W)
      → attempt opts fn calc (some t) s ≡ (ok tt, s')
      → IsSaved t fn calc s s'
  unfolding attempt save_result
  attempt-eq_ok t fn calc s s' e =
      let (r, s2) = fn t s in
      let saved = record_result t r (calc (1 + t.rec.retry_count)) (opts.now s2) in
      or_wrap-eq_ok (wrap "inserting/updating record") (opts.store.upsert t.key saved) s2 s' tt (
        or_wrap-eq_ok (wrap "saving processing result")
          (or_wrap (wrap "inserting/updating record") (opts.store.upsert t.key saved)) s2 s' tt e)

  pub process_document-loaded :
      (doc : Document) (fn : Task → Io W (Unit {0})) (calc : ℕ → ℤ) (t : Task) (s s1 s' : W)
      → load_task opts doc s ≡ (ok (some t), s1)
      → process_document opts doc fn calc s ≡ (ok tt, s')
      → IsSaved t fn calc s1 s'
  unfolding process_document
  process_document-loaded doc fn calc t s s1 s' loaded h =
      attempt-eq_ok t fn calc s1 s' (rw loaded at h)

  -- A call of `processDocument` that returns nil has either skipped a document that was not ready,
  -- or it has run `fn` once on its task and saved the result, good or bad, with the delay for one
  -- more retry than before.
  pub process_document-eq_ok :
      (doc : Document) (fn : Task → Io W (Unit {0})) (calc_retry_delay : ℕ → ℤ) (s s' : W)
      → process_document opts doc fn calc_retry_delay s ≡ (ok tt, s')
      → (load_task opts doc s ≡ (ok none, s'))
        ⊎ ((t : Task) × (s1 : W) × (load_task opts doc s ≡ (ok (some t), s1))
            × IsSaved t fn calc_retry_delay s1 s')
  unfolding process_document
  process_document-eq_ok doc fn calc s s' h =
      let (found, s1, loaded, rest) =
        >>=-eq_ok (load_task opts doc) (attempt opts fn calc) s s' tt h in
      go found s1 loaded rest
    where
      go :
          (found : Option Task) (s1 : W)
          → load_task opts doc s ≡ (ok found, s1)
          → attempt opts fn calc found s1 ≡ (ok tt, s')
          → (load_task opts doc s ≡ (ok none, s'))
            ⊎ ((t : Task) × (s1 : W) × (load_task opts doc s ≡ (ok (some t), s1))
                × IsSaved t fn calc s1 s')
      go none s1 loaded e = inl (loaded ∙ ap (λ w. (ok none, w)) (state_of e))
      go (some t) s1 loaded e = inr (t, s1, loaded, attempt-eq_ok t fn calc s1 s' e)
