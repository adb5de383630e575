-- ===== src/Workflow/Retries.antt =====
-- Documents that fail again and again (`processDocument` and `processDocumentInner` of
-- internal/cataloger/workflow.go, `SaveResult` of internal/cataloger/task.go).
use paperminer.Base.{ℕ, zero, suc, ◌+◌, ℤ, pos, ◌≡◌, refl, arith, ◌⊎◌, inl, inr, true, false, ltb_ℤ}
use paperminer.Errors.{Err}
use paperminer.Io.{Io, Result, ok, err, continue, ◌>>=◌}
use paperminer.Io.Laws.{result_of, state_of}
use paperminer.Paperless.{Time, Document, DocumentMetadata}
use paperminer.Store.{DocumentTask}
use paperminer.Facter.{Context}
use paperminer.Updater.{Updater, new_updater, apply_facts, mark_failed, finish, do_update}
use paperminer.Task.{Task, fresh_record, record_result}
use paperminer.Workflow.{
  Environment, Workflow, updater_options, is_last_retry, process_document_inner,
}

-- `Failures k r r'`: k failed attempts on a document lead from the record r to r'.
pub data Failures : ℕ → DocumentTask → DocumentTask → Type 0 where
  none_yet : {r : DocumentTask} → Failures zero r r
  one_more :
      {k : ℕ} {r : DocumentTask} (t : Task) (e : Err) (retry_after : ℤ) (now : Time)
      → Failures k r t.rec
      → Failures (suc k) r (record_result t (err e) retry_after now)

Failures-retry_count :
    {k : ℕ} {r r' : DocumentTask} → Failures k r r' → r'.retry_count ≡ k + r.retry_count
unfolding record_result
Failures-retry_count none_yet = omega arith
Failures-retry_count (one_more t e retry_after now before) =
    omega (arith, Failures-retry_count before)

module _ {W A : Type 0} where
  -- A call that fails, or what follows it.
  >>=-eq_err :
      {B : Type 0} (m : Io W A) (f : A → Io W B) (s s' : W) (e : Err)
      → (m >>= f) s ≡ (err e, s')
      → (m s ≡ (err e, s')) ⊎ ((a : A) × (t : W) × (m s ≡ (ok a, t)) × (f a t ≡ (err e, s')))
  >>=-eq_err {B} m f s s' e h = inspect (m s) refl h
    where
      inspect :
          (v : Result A × W)
          → m s ≡ v
          → continue f v.0 v.1 ≡ (err e, s')
          → (m s ≡ (err e, s')) ⊎ ((a : A) × (t : W) × (m s ≡ (ok a, t)) × (f a t ≡ (err e, s')))
      inspect (ok a, t) at rest = inr (a, t, at, rest)
      inspect (err x, t) at rest =
          let same : x ≡ e = cc (result_of rest) in inl (cc (at, same, state_of rest))

module _ {W File Doc : Type 0} (env : Environment W File Doc) (w : Workflow W Doc)
    (ctx : Context) where
  -- The updater could not be set up, or an update has failed and the failed tag could not be sent.
  pub CannotMark : Task → Err → W → W → Type 0
  CannotMark t e s s' =
      (new_updater env.todo_first (updater_options env w t) s ≡ (err e, s'))
      ⊎ ((u : Updater W File) × (x : Err) × (s1 s2 : W) × (new_updater env.todo_first
              (updater_options env w t) s
            ≡ (ok u, s1))
          × (apply_facts env.ops env.fs u ctx s1 ≡ (err x, s2))
          × (mark_failed env.ops u x s2 ≡ (err e, s')))

  final_failure :
      (t : Task) (u : Updater W File) (e : Err) (s s' : W)
      → do_update env.ops env.fs u ctx true s ≡ (err e, s')
      → (x : Err) × (s2 : W) × (apply_facts env.ops env.fs u ctx s ≡ (err x, s2))
        × (mark_failed env.ops u x s2 ≡ (err e, s'))
  unfolding do_update finish
  final_failure t u e s s' h = inspect (apply_facts env.ops env.fs u ctx s) refl h
    where
      inspect :
          (v : Result (Unit {0}) × W)
          → apply_facts env.ops env.fs u ctx s ≡ v
          → finish env.ops u true v.0 v.1 ≡ (err e, s')
          → (x : Err) × (s2 : W) × (apply_facts env.ops env.fs u ctx s ≡ (err x, s2))
            × (mark_failed env.ops u x s2 ≡ (err e, s'))
      inspect (ok done, s2) at rest = absurd (cc (result_of rest))
      inspect (err x, s2) at rest = (x, s2, at, rest)

  -- The program gives up on a document: a task with the record of a document that has failed k times
  -- since its record was new, k being the number of retries at least, fails again only if the updater
  -- cannot be set up, or if the update fails and the failed tag cannot be set. Any other failure of
  -- the update ends in a document that is marked as failed.
  pub gives_up :
      (k : ℕ) (doc : Document) (metadata : DocumentMetadata) (t : Task) (e : Err) (s s' : W)
      → Failures k (fresh_record doc metadata) t.rec
      → ltb_ℤ (pos k) w.retries_max ≡ false
      → process_document_inner env w ctx t s ≡ (err e, s')
      → CannotMark t e s s'
  unfolding CannotMark process_document_inner is_last_retry fresh_record
  gives_up k doc metadata t e s s' failures enough h =
      let count : t.rec.retry_count ≡ k = omega (arith, Failures-retry_count failures) in
      elim (>>=-eq_err (new_updater env.todo_first (updater_options env w t)) _ s s' e h) [
        | inl not_set_up ↦ inl not_set_up
        | inr (u, s1, made, rest) ↦
            let (x, s2, failed, marked) = final_failure t u e s1 s' (rw (count, enough) at rest) in
            inr (u, x, s1, s2, made, failed, marked)
      ]
