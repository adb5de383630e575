-- ===== src/Tests/Lifecycle.antt =====
-- Polls that are asked for, documents that fail for good, the program's end, and a key that is read.
use paperminer.Base.{
  ℕ, suc, ◌≡◌, refl, true, false, ℤ, pos, Option, none, some, List, [], ◌∷◌, All, arith, String,
}
use paperminer.Errors.{sentinel, canceled, plain}
use paperminer.Io.{err}
use paperminer.Poller.{Options, Round, poll_loop, next_delay}
use paperminer.Poller.Channel.{
  at_head, sleeping, Looping, enter, again, call_poll, sleep, OtherStep, notifies, LoopStep, polls,
  waits, is_notified, Run, nothing, other_step, loop_step, back,
}
use paperminer.Core.Mux.{Receiver, WillPoll, post_consume, post_consume_polls}
use paperminer.Facter.{background}
use paperminer.Store.{unix_micro, bits_64, key}
use paperminer.Store.Key.RoundTrip.{read_key, read_key-key}
use paperminer.Task.{Task, fresh_record, record_result}
use paperminer.Workflow.{Environment, Workflow, process_document_inner}
use paperminer.Workflow.Retries.{none_yet, one_more, CannotMark, gives_up}
use paperminer.Tests.World.{World, start, bill, bill_metadata, client, settings, environment}
use paperminer.Tests.Cataloger.{task, too_big}

-- Polls that count.
abbrev pub hourly : Options ℕ
hourly = record {
  poll = some suc;
  next_delay = some (λ n. pos 3600);
  min_delay = pos 1;
  max_delay = pos 0;
  jitter = record { num = pos 0; den = 1 };
}

abbrev pub delay : ℕ → ℤ
delay n = pos 3600

-- The loop sleeps after its first poll, and a message has come.
abbrev asleep : Looping ℕ
asleep = record { position = sleeping; pending = true; ctx_err = none; begun = 1; state = 1 }

asleep-Run : Run suc delay hourly (enter 0) 2 asleep
unfolding enter call_poll sleep paperminer.Poller.Channel.notify_post_consume next_delay
asleep-Run =
    other_step (loop_step (loop_step nothing (polls refl)) (waits 0 refl refl refl)) notifies

abbrev woken_up : Looping ℕ
woken_up = record { position = at_head; pending = false; ctx_err = none; begun = 2; state = 1 }

abbrev receivers : List (Option (Receiver ℕ))
receivers =
    some (record {
      call = suc;
      next = delay;
      options = hourly;
      loop = record asleep { pending = false };
    })
    ∷ none
    ∷ []

post_consume_polls_example :
    ((post_consume receivers).0 ≡ 204) × All WillPoll (post_consume receivers).1
post_consume_polls_example = post_consume_polls receivers

-- A server that accepts no change.
abbrev refusing : Environment World String String
refusing = record environment {
  client = record client { patch_document = λ id fields w. (err (plain "down"), w) };
}

abbrev strict : Workflow World String
strict = record settings { file_size_max = pos 10; retries_max = pos 1 }

-- The document was too large before.
abbrev failed_task : Task
failed_task = record task { rec = record_result task (err too_big) (pos 5) (pos 2000) }

gives_up_example :
    CannotMark refusing strict background failed_task
      (plain "down")
      start
      (process_document_inner refusing strict background failed_task start).1
unfolding paperminer.Task.new_task fresh_record process_document_inner
    paperminer.Updater.new_updater paperminer.Resolver.get_or_create_by_name
    paperminer.Workflow.updater_options paperminer.Updater.do_update paperminer.Updater.apply_facts
    paperminer.Updater.check_size paperminer.Workflow.is_last_retry record_result
    paperminer.Updater.mark_failed paperminer.Updater.patch_document paperminer.Patch.build
    paperminer.Slices.equal paperminer.Patch.set_tag paperminer.Patch.unset_tag
    paperminer.Patch.new_patch_builder paperminer.Patch.add_key paperminer.Patch.add_keys
    paperminer.Patch.delete_key paperminer.Patch.patch_tags paperminer.Task.check_modified
    paperminer.Task.new_doc_snapshot paperminer.Updater.finish paperminer.Updater.is_permanent_error
    paperminer.Patch.normalize_ids paperminer.Slices.compact paperminer.Slices.sort
gives_up_example =
    gives_up refusing strict background 1 bill bill_metadata failed_task (plain "down") start
      (process_document_inner refusing strict background failed_task start).1
      (one_more task too_big (pos 5) (pos 2000) none_yet) refl refl

read_key-key_example :
    read_key 4 (key (fresh_record bill bill_metadata))
    ≡ some (record {
      id = 7;
      added = bits_64 (unix_micro (pos 10));
      modified = bits_64 (unix_micro (pos 20));
      original_checksum = b'a' ∷ b'b' ∷ b'c' ∷ [];
      archive_checksum = [];
    })
unfolding fresh_record
read_key-key_example =
    read_key-key (fresh_record bill bill_metadata) 4 (omega arith)
      (omega arith, (omega arith, (omega arith, tt))) tt (omega arith) (omega arith)

-- The context ends while the loop sleeps, with a message in the channel.
abbrev ended_sleep : Looping ℕ
ended_sleep = record asleep { ctx_err = some (sentinel canceled) }

abbrev took_message : Looping ℕ
took_message = record ended_sleep { position = at_head; pending = false; begun = 2 }
