-- ===== src/Tests/Tasks.antt =====
-- Attempts at the one document of the small world.
use mathlib.Core.Option.{some-injective}
use paperminer.Base.{
  ◌↔◌, ap, ◌==◌, ◌&&◌, not, inl, inr, Option, Bool-cases, if◌then◌else◌, ℕ, ◌≡◌, refl, sym, subst,
  ◌⊎◌, pos, ℤ, ◌+ℤ◌, Bool, true, false, none, some, List, [], ◌∷◌, eq_iff, eqb_ℤ_iff, arith,
}
use paperminer.Errors.{plain}
use paperminer.Io.{Io, ok, err}
use paperminer.Io.Laws.{ok_injective}
use paperminer.Store.{DocumentTask}
use paperminer.Task.{
  fresh_record, DocSnapshot, Task, TaskOptions, new_task, load_task, save_result, check_modified,
  process_document,
}
use paperminer.Task.Records.{
  KeepsRecords, IsConsistent, AllConsistent, process_document-AllConsistent,
}
use paperminer.Task.Backoff.{IsUnmodified, process_document_backs_off, check_modified-eq_ok}
use paperminer.Tests.World.{bill, bill_metadata, found, same_bool, same_snapshot}

abbrev task : Task
task = record (new_task bill bill_metadata (pos 1000)) {
  rec = record (new_task bill bill_metadata (pos 1000)).rec { record_created = pos 1000 };
}

abbrev minute : ℕ → ℤ
minute count = pos 60

-- A database of records by their keys, the last one written first, and a clock.
pub record Base : Type 0 where
  pub entries : List (List ℕ × DocumentTask)
  pub clock : ℤ

abbrev same_key : List ℕ → List ℕ → Bool
same_key [] [] = true
same_key [] (y ∷ ys) = false
same_key (x ∷ xs) [] = false
same_key (x ∷ xs) (y ∷ ys) = x == y && same_key xs ys

same_key_refl : (k : List ℕ) → same_key k k ≡ true
same_key_refl [] = refl
same_key_refl (x ∷ k) = ground (arith, same_key_refl k)

same_key_eq : (a b : List ℕ) → same_key a b ≡ true → a ≡ b
same_key_eq [] [] h = refl
same_key_eq [] (y ∷ b) h = cc
same_key_eq (x ∷ a) [] h = cc
same_key_eq (x ∷ a) (y ∷ b) h = ground (arith, same_key_eq a b)

abbrev find : List ℕ → List (List ℕ × DocumentTask) → Option DocumentTask
find k [] = none
find k ((k', r) ∷ entries) = if same_key k k' then some r else find k entries

abbrev look : List ℕ → Base → Option DocumentTask
look k b = find k b.entries

abbrev base_tasks : TaskOptions Base
base_tasks = record {
  store = record {
    get = λ key b. (found (look key b), b);
    upsert = λ key rec b. (ok tt, record b { entries = (key, rec) ∷ b.entries });
  };
  client = record {
    get_document = λ id b. (ok bill, b);
    get_document_metadata = λ id b. (ok bill_metadata, b);
  };
  now = λ b. b.clock;
  json_diff = λ x y. ok (not (same_snapshot x y));
}

found-ok : (o : Option DocumentTask) (r : DocumentTask) → (o ≡ some r) ↔ (found o ≡ ok r)
found-ok none r = (λ h. absurd (cc h), λ h. absurd (cc h))
found-ok (some x) r = (λ h. ap ok (some-injective _ _ h), λ h. ap some (ok_injective h))

base_writes :
    (k k' : List ℕ) (r : DocumentTask) (b : Base)
    → (find k' ((k, r) ∷ b.entries) ≡ look k' b)
      ⊎ ((k' ≡ k) × (find k' ((k, r) ∷ b.entries) ≡ some r))
base_writes k k' r b = elim (Bool-cases (same_key k' k)) [
  | inl same ↦ inr (same_key_eq k' k same, rw same refl)
  | inr other ↦ inl (rw other refl)
]

base_tasks-KeepsRecords : KeepsRecords base_tasks look
base_tasks-KeepsRecords = record {
  finds = λ k r b h. (found-ok (look k b) r).0 h;
  finds_only = λ k r b h. (found-ok (look k b) r).1 h;
  reading = λ k k' b. refl;
  stores = λ k r b h. rw (same_key_refl k) refl;
  writes = base_writes;
}

abbrev empty : Base
empty = record { entries = []; clock = pos 1000 }

-- The failure takes ten nanoseconds.
abbrev fails : Task → Io Base (Unit {0})
fails t b = (err (plain "no network"), record b { clock = pos 1010 })

abbrev after_failure : Base
after_failure = (process_document base_tasks bill fails minute empty).1

-- Less than the delay later.
abbrev later : Base
later = record after_failure { clock = pos 1069 }

process_document_backs_off_example :
    process_document base_tasks bill fails minute later ≡ (ok tt, later)
unfolding load_task new_task process_document save_result ◌+ℤ◌
process_document_backs_off_example =
    process_document_backs_off base_tasks look bill fails fails minute minute task
      (plain "no network") empty empty (record empty { clock = pos 1010 }) after_failure later later
      base_tasks-KeepsRecords refl refl refl refl refl (λ e. ground arith) (omega arith)

-- A database whose one record has failed once.
abbrev failed_once : Base
failed_once = record {
  entries =
      (
        task.key,
        record task.rec {
          retry_count = 1;
          attempts = record { begin = pos 1; finish = pos 2; success = false; message = "" } ∷ [];
        },
      )
      ∷ [];
  clock = pos 1000;
}

failed_once-AllConsistent : AllConsistent base_tasks look failed_once
failed_once-AllConsistent k r h = elim (Bool-cases (same_key k task.key)) [
  | inl same ↦ subst IsConsistent (some-injective _ _ (rw same at h)) refl
  | inr other ↦ absurd (cc (rw other at h))
]

-- What the next failure leaves.
abbrev failed_twice : DocumentTask
failed_twice = record task.rec {
  retry_count = 2;
  retry_after = pos 1070;
  record_updated = pos 1010;
  attempts =
      record { begin = pos 1; finish = pos 2; success = false; message = "" }
      ∷ record { begin = pos 1000; finish = pos 1010; success = false; message = "no network" }
      ∷ [];
}

process_document-AllConsistent_example : IsConsistent failed_twice
unfolding process_document load_task new_task save_result ◌+ℤ◌ paperminer.Store.key
    paperminer.Base.◌-ℤ◌ paperminer.Task.record_result
process_document-AllConsistent_example =
    process_document-AllConsistent base_tasks look bill fails minute failed_once
      base_tasks-KeepsRecords (λ k b. refl) (λ t k b. refl) failed_once-AllConsistent task.key
      failed_twice refl

same_bool_eq : (a b : Bool) → same_bool a b ≡ true → a ≡ b
same_bool_eq true b h = sym h
same_bool_eq false b h = ground arith

same_snapshot_eq : (a b : DocSnapshot) → same_snapshot a b ≡ true → a ≡ b
same_snapshot_eq a b h = ground (
  arith,
  eqb_ℤ_iff a.added b.added,
  eqb_ℤ_iff a.created b.created,
  eqb_ℤ_iff a.modified b.modified,
  eq_iff a.title b.title,
  eq_iff a.content b.content,
  eq_iff a.original_checksum b.original_checksum,
  eq_iff a.archive_checksum b.archive_checksum,
  same_bool_eq a.has_archive_version b.has_archive_version,
)

check_modified-eq_ok_example : IsUnmodified base_tasks bill empty later later
unfolding check_modified load_task new_task
check_modified-eq_ok_example =
    check_modified-eq_ok base_tasks bill task empty empty later later
      (λ a b h. same_snapshot_eq a b (ground (arith, ok_injective h))) refl refl

-- The record of the document with other details than those of the key.
abbrev updated_record : DocumentTask
updated_record = record (fresh_record bill bill_metadata) { retry_count = 2; retry_after = pos 77 }

abbrev first_record : DocumentTask
first_record = fresh_record bill bill_metadata
