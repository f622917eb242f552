-- ===== src/Migration/Run.antt =====
-- `runMigration`, `markItemSkipped` and `cleanupEmptySourceRoots` of
-- backend/src/config/storageMigration.service.ts. A request to cancel may be handled before each item:
-- `cancels` says before which.
pub mod Steps
pub mod End
pub mod Keeps
pub mod Files
use Prim.Native.String.{◌++◌}
use i_transfer.Base.{
  delete_where, ℕ, suc, ◌+◌, String, Bool, true, false, not, Option, none, some, List, [], ◌∷◌,
  ◌==◌, if◌then◌else◌,
}
use i_transfer.Env.{Env}
use i_transfer.Migration.{
  Machine, Faults, Removal, gone, not_there, not_empty, refused, are_paths_equal, cancel_migration,
  find_job, get_migration_job, items_of, lock, unlock, update_item, update_job,
}
use i_transfer.Migration.Item.{Moved, left_alone, moved, migrate_item}
use i_transfer.World.{
  World, Directory, App, Exception, Outcome, ok, throws, pure, gets, modify, or_throw, resume,
  ◌>>=◌, ◌>>◌, null_dereference, StorageMigrationJob, StorageMigrationJobItem,
}
use i_transfer.World.Migrations.{
  Status, pending, running, cancel_requested, cancelled, completed, completed_with_warnings, failed,
  skipped, cleanup_failed,
}

-- Whether the loop goes on, with a warning of the clean-up, or has returned.
pub data Next : Type 0 where
  go_on : (warning : Option String) → Next
  stop : Next

abbrev pub is_cancel_requested : Status → Bool
is_cancel_requested cancel_requested = true
is_cancel_requested _ = false

-- `markItemSkipped`
pub mark_item_skipped : (job_id item_id message : String) → App (Unit {0})
mark_item_skipped job_id item_id message = do
  update_item item_id (λ i. record i { status = skipped; error_message = some message })
  update_job job_id (λ j. record j { skipped_shares = suc j.skipped_shares })

with_warning : Option String → List String → List String
with_warning none warnings = warnings
with_warning (some x) warnings = x ∷ warnings

-- `warnings.join("\n")`; the warnings are kept with the last one first.
unfoldable pub join_lines : List String → Option String
join_lines [] = none
join_lines (x ∷ []) = some x
join_lines (x ∷ xs) = elim (join_lines xs) [
  | none ↦ some x
  | some text ↦ some (text ++ ("\n" ++ x))
]

-- The roots of the items' old directories, each once, where it comes first, but not the new one.
source_roots : Machine → String → List StorageMigrationJobItem → List String
source_roots machine target [] = []
source_roots machine target (i ∷ items) =
    let rest = source_roots machine target items in
    let root = machine.resolve i.source_path.root in
    if are_paths_equal machine root target then rest else root ∷ delete_where (λ x. x == root) rest

removal_warning : String → Removal → Option String
removal_warning root gone = none
removal_warning root not_there = none
removal_warning root not_empty =
    some ("Old upload root was left in place because it is not empty: " ++ root)
removal_warning root (refused message) =
    some ("Could not delete old upload root " ++ (root ++ (": " ++ message)))

root_warnings : Machine → List String → List String → List String
root_warnings machine [] warnings = warnings
root_warnings machine (root ∷ roots) warnings = root_warnings machine roots (
    with_warning
      (if machine.is_file_system_root root
        then some ("Old upload root was not deleted because it is a filesystem root: " ++ root)
        else removal_warning root (machine.rmdir root))
      warnings)

-- `cleanupEmptySourceRoots`, added to the warnings so far.
unfoldable pub cleanup_empty_source_roots :
    Machine → World → StorageMigrationJob → List String → List String
unfolding source_roots root_warnings with_warning removal_warning
cleanup_empty_source_roots machine w job warnings =
    root_warnings machine
      (source_roots machine (machine.resolve job.target_path) (items_of w job.id)) warnings

module _ (env : Env) (machine : Machine) (faults : String → Faults) (cancels : String → Bool)
    (job_id : String) where
  finish_item : StorageMigrationJobItem → Moved → App Next
  finish_item item (left_alone message) = do
    mark_item_skipped job_id item.id message
    pure (go_on none)
  finish_item item (moved bytes cleanup_error) = do
    update_item item.id (λ i. record i {
      status = elim cleanup_error [ none ↦ completed | some _ ↦ cleanup_failed ];
      error_message = elim cleanup_error [ none ↦ i.error_message | some e ↦ some e ];
    })
    _ ← get_migration_job job_id
    update_job job_id
        (λ j. record j { moved_shares = suc j.moved_shares; moved_bytes = j.moved_bytes + bytes })
    pure (
        go_on (elim cleanup_error [
          | none ↦ none
          | some e ↦ some (
              "Could not delete old share folder "
              ++ (item.source_path.root ++ ("/" ++ (item.source_path.share_id ++ (": " ++ e)))))
        ]))

  -- The `try` block.
  pub try_item : StorageMigrationJobItem → String → App Next
  unfolding finish_item
  try_item item share_id = do
    update_item item.id (λ i. record i { status = running })
    update_job job_id (λ j. record j { current_share_id = some share_id })
    result ← migrate_item env machine (faults item.id) item.id
    finish_item item result

  -- The `catch` block.
  pub fail_item : StorageMigrationJobItem → Exception → App Next
  fail_item item e = do
    update_item item.id
        (λ i. record i { status = failed; error_message = some (machine.message e) })
    update_job job_id (λ j. record j {
      status = failed;
      failed_shares = suc j.failed_shares;
      error_message = some (machine.message e);
      completed_at = some env.now;
      current_share_id = none;
    })
    pure stop

  pub or_fail : StorageMigrationJobItem → Outcome Next × World → Outcome Next × World
  or_fail item (ok next, w) = (ok next, w)
  or_fail item (throws e, w) = fail_item item e w

  -- `finally`
  released : String → Outcome Next × World → Outcome Next × World
  released share_id (r, w) = (r, unlock share_id w)

  -- One turn of the loop.
  pub run_item : StorageMigrationJobItem → App Next
  unfolding released or_fail
  run_item item = do
    found ← gets (λ w. find_job w job_id)
    job ← or_throw null_dereference found
    if is_cancel_requested job.status
        then (update_job job_id (λ j. record j {
          status = cancelled;
          completed_at = some env.now;
          current_share_id = none;
        })
            >> pure stop)
        else elim item.share_id as (λ _. App Next) [
          | none ↦ mark_item_skipped job_id item.id "Share no longer exists." >> pure (go_on none)
          | some share_id ↦
              λ w. released share_id (or_fail item (try_item item share_id (lock share_id w)))
        ]

  -- The warnings of the loop, and those of the roots that were to be deleted.
  unfoldable pub all_warnings : List String → World → List String
  all_warnings warnings w = elim (find_job w job_id) [
    | none ↦ warnings
    | some job ↦
        if job.delete_empty_source_roots
        then cleanup_empty_source_roots machine w job warnings
        else warnings
  ]

  pub completed_with : List String → StorageMigrationJob → StorageMigrationJob
  completed_with warnings j = record j {
    status = elim (join_lines warnings) [ none ↦ completed | some _ ↦ completed_with_warnings ];
    error_message = join_lines warnings;
    completed_at = some env.now;
    current_share_id = none;
  }

  -- After the loop.
  pub complete_job : List String → App (Unit {0})
  unfolding completed_with
  complete_job warnings = do
    all ← gets (all_warnings warnings)
    update_job job_id (completed_with all)

  -- A request to cancel that is handled before the item's turn.
  pub cancelled_before : StorageMigrationJobItem → World → World
  cancelled_before item w = if cancels item.id then (cancel_migration env job_id w).1 else w

  pub run_items : List StorageMigrationJobItem → List String → App (Unit {0})
  unfolding complete_job cancelled_before with_warning
  run_items [] warnings w = complete_job warnings w
  run_items (item ∷ items) warnings w = resume (run_item item (cancelled_before item w)) (λ next.
      elim next as (λ _. App (Unit {0})) [
        | stop ↦ pure tt
        | go_on warning ↦ run_items items (with_warning warning warnings)
      ])

  -- `runMigration`
  pub run_migration : App (Unit {0})
  run_migration = do
    update_job job_id (λ j. record j { status = running; started_at = some env.now })
    items ← gets (λ w. items_of w job_id)
    run_items items []
