-- ===== src/Tests/Cataloger.antt =====
-- Runs of the cataloger on one document.
use paperminer.Base.{◌≡◌, refl, ap, pos, String, false, contains, arith}
use paperminer.Errors.{Err, detail, document_too_large}
use paperminer.Io.Laws.{ok_injective, result_of}
use paperminer.Paperless.{DocumentFields}
use paperminer.Slices.{std_ops, equal, compact, sort}
use paperminer.Slices.Laws.{std_ops-IsDocumented}
use paperminer.Patch.Values.{values_of, apply_patch}
use paperminer.Patch.{build, set_facts, unset_tag, new_patch_builder}
use paperminer.Facter.{background, best}
use paperminer.Facts.{is_empty}
use paperminer.Documents.{extract_facts, extract_variant_facts}
use paperminer.Resolver.{get_or_create_by_name}
use paperminer.Updater.{
  Updater, get_facts, with_facts, patch_document, new_updater, check_size, do_update, apply_facts,
}
use paperminer.Updater.Outcome.{IsSent, IsUpdated, do_update-clears_todo, apply_facts-eq_ok}
use paperminer.Workflow.{handle, updater_options, Workflow}
use paperminer.Workflow.Outcome.{AreApart, IsHandled, handle-IsHandled}
use paperminer.Task.{Task, new_task}
use paperminer.Tests.World.{World, start, bill, bill_metadata, fs, settings, environment, updater}

pub apart : AreApart environment settings background
unfolding new_updater get_or_create_by_name updater_options
apart t u s s' h =
    let same = ok_injective (result_of h) in
    let todo : 1 ≡ u.todo_tag.id = ap (λ (v : Updater World String). v.todo_tag.id) same in
    let failed : 2 ≡ u.failed_tag.id = ap (λ (v : Updater World String). v.failed_tag.id) same in
    λ e. absurd (omega arith)

handle-IsHandled_example :
    IsHandled environment settings background bill start
      (handle environment settings background bill start).1
unfolding handle paperminer.Task.process_document paperminer.Task.load_task
    paperminer.Task.save_result
handle-IsHandled_example =
    handle-IsHandled environment settings background bill start
      (handle environment settings background bill start).1 std_ops-IsDocumented apart refl

abbrev pub task : Task
task = new_task bill bill_metadata (pos 1000)

-- Settings with a limit that the document exceeds.
abbrev small : Workflow World String
small = record settings { file_size_max = pos 10 }

abbrev small_updater : Updater World String
small_updater = record {
  options = updater_options environment small task;
  todo_tag = record { id = 1; name = "todo" };
  failed_tag = record { id = 2; name = "failed" };
}

abbrev pub too_big : Err
too_big = detail document_too_large "original file size is too large"

do_update-clears_todo_example :
    (patch : DocumentFields) × (t : World) × IsSent updater patch t
      (do_update std_ops fs updater background false start).1
    × (contains (apply_patch patch (values_of bill)).tags 1 ≡ false)
unfolding do_update apply_facts check_size get_facts extract_facts extract_variant_facts best
    is_empty with_facts set_facts get_or_create_by_name patch_document build equal unset_tag
    new_patch_builder compact sort
do_update-clears_todo_example =
    do_update-clears_todo updater std_ops fs background false start
      (do_update std_ops fs updater background false start).1 std_ops-IsDocumented
      (λ e. absurd (omega arith)) refl

apply_facts-eq_ok_example :
    IsUpdated updater std_ops fs background start
      (apply_facts std_ops fs updater background start).1
unfolding apply_facts check_size get_facts extract_facts extract_variant_facts best is_empty
    with_facts set_facts get_or_create_by_name patch_document build equal unset_tag
    new_patch_builder compact sort
apply_facts-eq_ok_example =
    apply_facts-eq_ok updater std_ops fs background start
      (apply_facts std_ops fs updater background start).1 std_ops-IsDocumented refl
