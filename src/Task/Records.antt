-- ===== src/Task/Records.antt =====
-- The records that `processDocument` of internal/cataloger/task.go leaves in the database.
use mathlib.Core.Option.{some-injective}
use paperminer.Base.{
  ℕ, ◌+◌, ℤ, ◌≡◌, refl, ◌∙◌, sym, ap, subst, ◌⊎◌, true, false, Bool-cases, inl, inr, Option, none,
  some, List, [], ◌∷◌, ◌++◌, arith, if◌then◌else◌,
}
use paperminer.Errors.{store_not_found, is_error, error_text}
use paperminer.Io.{Io, Result, ok, err, continue}
use paperminer.Io.Laws.{ok_injective}
use paperminer.Paperless.{Time, Document, DocumentMetadata}
use paperminer.Store.{DocumentTask, DocumentTaskAttempt}
use paperminer.Task.Attempt.{load_task-eq_ok}
use paperminer.Task.{
  TaskOptions, Task, is_waiting, with_record, new_task, load_task, record_result, save_result,
  attempt, process_document,
}

-- What is documented of the database, where `look k s` is the record that it has under the key k: it
-- is what is read, reading changes nothing, and writing changes the record of its own key alone, if
-- it does not fail.
pub record KeepsRecords {W : Type 0} (opts : TaskOptions W)
    (look : List ℕ → W → Option DocumentTask) : Type 0 where
  pub finds :
      (k : List ℕ) (r : DocumentTask) (s : W) → look k s ≡ some r → (opts.store.get k s).0 ≡ ok r
  pub finds_only :
      (k : List ℕ) (r : DocumentTask) (s : W) → (opts.store.get k s).0 ≡ ok r → look k s ≡ some r
  pub reading : (k k' : List ℕ) (s : W) → look k' (opts.store.get k s).1 ≡ look k' s
  pub stores :
      (k : List ℕ) (r : DocumentTask) (s : W)
      → (opts.store.upsert k r s).0 ≡ ok tt
      → look k (opts.store.upsert k r s).1 ≡ some r
  pub writes :
      (k k' : List ℕ) (r : DocumentTask) (s : W)
      → (look k' (opts.store.upsert k r s).1 ≡ look k' s)
        ⊎ ((k' ≡ k) × (look k' (opts.store.upsert k r s).1 ≡ some r))

abbrev failed_attempts : List DocumentTaskAttempt → ℕ
failed_attempts [] = 0
failed_attempts (a ∷ l) = (if a.success then 0 else 1) + failed_attempts l

-- The retry count is the number of failed attempts.
abbrev pub IsConsistent : DocumentTask → Type 0
IsConsistent r = r.retry_count ≡ failed_attempts r.attempts

failed_attempts-append :
    (l : List DocumentTaskAttempt) (a : DocumentTaskAttempt)
    → failed_attempts (l ++ (a ∷ [])) ≡ (if a.success then 0 else 1) + failed_attempts l
failed_attempts-append [] a = refl
failed_attempts-append (b ∷ l) a = ground (arith, failed_attempts-append l a)

record_result-IsConsistent :
    (t : Task) (r : Result (Unit {0})) (retry_after : ℤ) (now : Time)
    → IsConsistent t.rec
    → IsConsistent (record_result t r retry_after now)
unfolding record_result
record_result-IsConsistent t (ok done) retry_after now h =
    let a : DocumentTaskAttempt = record {
      begin = t.begin;
      finish = now;
      success = true;
      message = "";
    } in
    omega (arith, failed_attempts-append t.rec.attempts a)
record_result-IsConsistent t (err e) retry_after now h =
    let a : DocumentTaskAttempt = record {
      begin = t.begin;
      finish = now;
      success = false;
      message = error_text e;
    } in
    omega (arith, failed_attempts-append t.rec.attempts a)

with_record-IsConsistent :
    (t t' : Task) (found : Result DocumentTask)
    → IsConsistent t.rec
    → ((r : DocumentTask) → found ≡ ok r → IsConsistent r)
    → with_record t found ≡ ok (some t')
    → IsConsistent t'.rec
unfolding with_record
with_record-IsConsistent t t' (ok rec) fresh stored h = elim (Bool-cases (is_waiting t.begin rec)) [
  | inl waiting ↦ absurd (cc (ok_injective (rw waiting at h)))
  | inr ready ↦
      subst (λ (q : Task). IsConsistent q.rec) (some-injective _ _ (ok_injective (rw ready at h)))
        (stored rec refl)
]
with_record-IsConsistent t t' (err e) fresh stored h =
    elim (Bool-cases (is_error e store_not_found)) [
      | inl missing ↦
          subst (λ (q : Task). IsConsistent q.rec)
            (some-injective _ _ (ok_injective (rw missing at h))) fresh
      | inr other ↦ absurd (cc (rw other at h))
    ]

module _ {W : Type 0} (opts : TaskOptions W) (look : List ℕ → W → Option DocumentTask) where
  -- Each record in the database has the number of its failed attempts as its retry count.
  abbrev pub AllConsistent : W → Type 0
  AllConsistent s = (k : List ℕ) (r : DocumentTask) → look k s ≡ some r → IsConsistent r

  -- A call that leaves all records.
  abbrev pub LeavesRecords : {A : Type 0} → Io W A → Type 0
  LeavesRecords m = (k : List ℕ) (s : W) → look k (m s).1 ≡ look k s

  AllConsistent-same :
      (s u : W) → ((k : List ℕ) → look k u ≡ look k s) → AllConsistent s → AllConsistent u
  AllConsistent-same s u same all k r h = all k r (sym (same k) ∙ h)

  load_task-LeavesRecords :
      (doc : Document)
      → KeepsRecords opts look
      → LeavesRecords (opts.client.get_document_metadata doc.id)
      → LeavesRecords (load_task opts doc)
  unfolding load_task
  load_task-LeavesRecords doc db quiet k s =
      loaded (opts.client.get_document_metadata doc.id s) refl
    where
      loaded :
          (a : Result DocumentMetadata × W)
          → opts.client.get_document_metadata doc.id s ≡ a
          → look k (load_task opts doc s).1 ≡ look k s
      loaded (ok metadata, t) e = rw e (
          db.reading (new_task doc metadata (opts.now t)).key k t
          ∙ ap (λ (x : Result DocumentMetadata × W). look k x.1) (sym e)
          ∙ quiet k s)
      loaded (err x, t) e =
          rw e (ap (λ (a : Result DocumentMetadata × W). look k a.1) (sym e) ∙ quiet k s)

  load_task-IsConsistent :
      (doc : Document) (t : Task) (s s' : W)
      → KeepsRecords opts look
      → LeavesRecords (opts.client.get_document_metadata doc.id)
      → AllConsistent s
      → load_task opts doc s ≡ (ok (some t), s')
      → IsConsistent t.rec
  unfolding new_task
  load_task-IsConsistent doc t s s' db quiet all h =
      let (metadata, s1, found, read, got, made) = load_task-eq_ok opts doc t s s' h in
      let key = (new_task doc metadata (opts.now s1)).key in
      let all1 =
        AllConsistent-same s s1
          (λ k. ap (λ (x : Result DocumentMetadata × W). look k x.1) (sym read) ∙ quiet k s) all in
      with_record-IsConsistent (new_task doc metadata (opts.now s1)) t found refl
        (λ r e.
          all1 key r (db.finds_only key r s1 (ap (λ (x : Result DocumentTask × W). x.0) got ∙ e)))
        made

  attempt-AllConsistent :
      (fn : Task → Io W (Unit {0})) (calc : ℕ → ℤ) (found : Option Task) (s : W)
      → KeepsRecords opts look
      → ((t : Task) → LeavesRecords (fn t))
      → ((t : Task) → found ≡ some t → IsConsistent t.rec)
      → AllConsistent s
      → AllConsistent (attempt opts fn calc found s).1
  unfolding attempt save_result
  attempt-AllConsistent fn calc none s db quiet task all k r h = all k r h
  attempt-AllConsistent fn calc (some t) s db quiet task all k r h =
      let (result, s2) = fn t s in
      let saved = record_result t result (calc (1 + t.rec.retry_count)) (opts.now s2) in
      elim (db.writes t.key k saved s2) [
        | inl same ↦ all k r (sym (quiet t k s) ∙ sym same ∙ h)
        | inr (_, written) ↦ subst IsConsistent (some-injective _ _ (sym written ∙ h)) (
            record_result-IsConsistent t result (calc (1 + t.rec.retry_count)) (opts.now s2)
              (task t refl))
      ]

  -- If in every record of the database the retry count is the number of the failed attempts, so it is
  -- after `processDocument`, whatever came of it, for a function that leaves the records.
  pub process_document-AllConsistent :
      (doc : Document) (fn : Task → Io W (Unit {0})) (calc_retry_delay : ℕ → ℤ) (s : W)
      → KeepsRecords opts look
      → LeavesRecords (opts.client.get_document_metadata doc.id)
      → ((t : Task) → LeavesRecords (fn t))
      → AllConsistent s
      → AllConsistent (process_document opts doc fn calc_retry_delay s).1
  unfolding process_document
  process_document-AllConsistent doc fn calc s db read quiet all = after (load_task opts doc s) refl
    where
      kept : (t : W) → (load_task opts doc s).1 ≡ t → AllConsistent t
      kept t e =
          AllConsistent-same s t
            (λ k. ap (look k) (sym e) ∙ load_task-LeavesRecords doc db read k s) all

      after :
          (a : Result (Option Task) × W)
          → load_task opts doc s ≡ a
          → AllConsistent (continue (attempt opts fn calc) a.0 a.1).1
      after (ok found, t) e =
          attempt-AllConsistent fn calc found t db quiet
            (λ x is.
              load_task-IsConsistent doc x s t db read all
                (e ∙ ap (λ (f : Option Task). (ok f, t)) is))
            (kept t (ap (λ (x : Result (Option Task) × W). x.1) e))
      after (err x, t) e = kept t (ap (λ (y : Result (Option Task) × W). y.1) e)
