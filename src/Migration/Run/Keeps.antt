-- ===== src/Migration/Run/Keeps.antt =====
-- What every step of a run keeps, the run keeps.
use i_transfer.Base.{String, Bool, true, false, Option, List, [], ◌∷◌, if◌then◌else◌}
use i_transfer.Env.{Env}
use i_transfer.Migration.{
  Machine, Faults, cancel_migration, find_job, get_migration_job, items_of, lock, unlock,
  update_item, update_job,
}
use i_transfer.Migration.Item.{Moved, left_alone, moved, migrate_item}
use i_transfer.Migration.Run.{
  Next, go_on, stop, complete_job, fail_item, is_cancel_requested, mark_item_skipped, or_fail,
  run_item, run_items, run_migration, try_item, finish_item, released, cancelled_before,
  with_warning,
}
use i_transfer.World.{
  World, App, Outcome, ok, throws, Ends, Ends-keep, Ends-if, Ends-match, Ends-need, Ends-of,
  Ends-state, StorageMigrationJob, StorageMigrationJobItem, null_dereference, not_found, pure,
}

-- The steps keep a condition.
pub record IsKeptBySteps (env : Env) (machine : Machine) (faults : String → Faults)
    (P : World → Type 0) : Type 0 where
  pub job :
      (id : String) (f : StorageMigrationJob → StorageMigrationJob) (w : World)
      → P w
      → P (update_job id f w).1
  pub item :
      (id : String) (f : StorageMigrationJobItem → StorageMigrationJobItem) (w : World)
      → P w
      → P (update_item id f w).1
  pub locked : (id : String) (w : World) → P w → P (lock id w)
  pub unlocked : (id : String) (w : World) → P w → P (unlock id w)
  pub cancel : (id : String) (w : World) → P w → P (cancel_migration env id w).1
  pub migrate : (id : String) (w : World) → P w → P (migrate_item env machine (faults id) id w).1

module _ (env : Env) (machine : Machine) (faults : String → Faults) (cancels : String → Bool)
    (job_id : String) (P : World → Type 0) (steps : IsKeptBySteps env machine faults P) where
  skip-keeps :
      (item_id message : String) (w : World)
      → P w
      → Ends (λ _. P) P (mark_item_skipped job_id item_id message w)
  unfolding mark_item_skipped
  skip-keeps item_id message w p =
      Ends-keep P (update_item item_id _ w) _ (steps.item item_id _ w p)
        λ _ w1 p1. Ends-of P (update_job job_id _ w1) (steps.job job_id _ w1 p1)

  finish-keeps :
      (item : StorageMigrationJobItem) (m : Moved) (w : World)
      → P w
      → Ends (λ _. P) P (finish_item env machine faults cancels job_id item m w)
  unfolding finish_item get_migration_job
  finish-keeps item (left_alone message) w p =
      Ends-keep P (mark_item_skipped job_id item.id message w) _
        (Ends-state P (mark_item_skipped job_id item.id message w) (skip-keeps item.id message w p))
        (λ _ _ kept. kept)
  finish-keeps item (moved bytes cleanup_error) w p =
      Ends-keep P (update_item item.id _ w) _ (steps.item item.id _ w p) λ _ w1 p1.
        Ends-need (λ _. P) P (not_found "Storage migration job not found") (find_job w1 job_id) w1 _
          p1
          λ _ _.
            Ends-keep P (update_job job_id _ w1) _ (steps.job job_id _ w1 p1) (λ _ _ kept. kept)

  try-keeps :
      (item : StorageMigrationJobItem) (share_id : String) (w : World)
      → P w
      → Ends (λ _. P) P (try_item env machine faults cancels job_id item share_id w)
  unfolding try_item
  try-keeps item share_id w p =
      Ends-keep P (update_item item.id _ w) _ (steps.item item.id _ w p) λ _ w1 p1.
        Ends-keep P (update_job job_id _ w1) _ (steps.job job_id _ w1 p1) λ _ w2 p2.
          Ends-keep P (migrate_item env machine (faults item.id) item.id w2) _
            (steps.migrate item.id w2 p2) λ m w3 p3. finish-keeps item m w3 p3

  fail-keeps :
      (item : StorageMigrationJobItem) (r : Outcome Next × World)
      → P r.1
      → P (or_fail env machine faults cancels job_id item r).1
  unfolding or_fail fail_item
  fail-keeps item (ok next, w) p = p
  fail-keeps item (throws e, w) p =
      Ends-state P (fail_item env machine faults cancels job_id item e w) (
        Ends-keep P (update_item item.id _ w) _ (steps.item item.id _ w p) λ _ w1 p1.
          Ends-keep P (update_job job_id _ w1) _ (steps.job job_id _ w1 p1) (λ _ _ kept. kept))

  released-keeps :
      (id : String) (r : Outcome Next × World)
      → P r.1
      → Ends (λ _. P) P (released env machine faults cancels job_id id r)
  unfolding released
  released-keeps id (ok next, w) p = steps.unlocked id w p
  released-keeps id (throws e, w) p = steps.unlocked id w p

  run_item-keeps :
      (item : StorageMigrationJobItem) (w : World)
      → P w
      → Ends (λ _. P) P (run_item env machine faults cancels job_id item w)
  unfolding run_item
  run_item-keeps item w p =
      Ends-need (λ _. P) P null_dereference (find_job w job_id) w _ p
        λ job _.
          Ends-if (λ _. P) P (is_cancel_requested job.status) _ _ w
            (λ _. Ends-keep P (update_job job_id _ w) _ (steps.job job_id _ w p) (λ _ _ kept. kept))
            (λ _.
              Ends-match (λ _. P) P item.share_id _ _ w
                (λ _.
                  Ends-keep P (mark_item_skipped job_id item.id "Share no longer exists." w) _
                    (Ends-state P (mark_item_skipped job_id item.id "Share no longer exists." w)
                      (skip-keeps item.id "Share no longer exists." w p))
                    (λ _ _ kept. kept))
                (λ id _.
                  released-keeps id
                    (or_fail env machine faults cancels job_id item
                      (try_item env machine faults cancels job_id item id (lock id w)))
                    (fail-keeps item
                      (try_item env machine faults cancels job_id item id (lock id w))
                      (Ends-state P (try_item env machine faults cancels job_id item id (lock id w))
                        (try-keeps item id (lock id w) (steps.locked id w p))))))

  cancelled_before-keeps :
      (item : StorageMigrationJobItem) (w : World)
      → P w
      → P (cancelled_before env machine faults cancels job_id item w)
  unfolding cancelled_before
  cancelled_before-keeps item w p = kept (cancels item.id)
    where
      kept : (b : Bool) → P (if b then (cancel_migration env job_id w).1 else w)
      kept true = steps.cancel job_id w p
      kept false = p

  next-keeps :
      (items : List StorageMigrationJobItem) (warnings : List String)
      → ((warning : Option String) (w : World)
          → P w
          → Ends
              (λ _. P)
              P
              (run_items env machine faults cancels job_id items (with_warning warning warnings) w))
      → (next : Next) (w : World) → P w
      → Ends
          (λ _. P)
          P
          ((elim next as (λ _. App (Unit {0})) [
            | stop ↦ pure tt
            | go_on warning ↦ λ x.
                run_items env machine faults cancels job_id items (with_warning warning warnings) x
          ])
            w)
  next-keeps items warnings rest stop w p = p
  next-keeps items warnings rest (go_on warning) w p = rest warning w p

  run_items-keeps :
      (items : List StorageMigrationJobItem) (warnings : List String) (w : World)
      → P w
      → Ends (λ _. P) P (run_items env machine faults cancels job_id items warnings w)
  unfolding run_items complete_job
  run_items-keeps [] warnings w p = Ends-of P (update_job job_id _ w) (steps.job job_id _ w p)
  run_items-keeps (item ∷ items) warnings w p =
      Ends-keep P
        (run_item env machine faults cancels job_id item
          (cancelled_before env machine faults cancels job_id item w))
        _
        (Ends-state P
          (run_item env machine faults cancels job_id item
            (cancelled_before env machine faults cancels job_id item w))
          (run_item-keeps item _ (cancelled_before-keeps item w p)))
        (next-keeps items warnings
          λ warning w' p'. run_items-keeps items (with_warning warning warnings) w' p')

  pub run_migration-keeps :
      (w : World) → P w → P (run_migration env machine faults cancels job_id w).1
  unfolding run_migration
  run_migration-keeps w p = Ends-state P (run_migration env machine faults cancels job_id w) (
      Ends-keep P (update_job job_id _ w) _ (steps.job job_id _ w p)
        λ _ w1 p1. run_items-keeps (items_of w1 job_id) [] w1 p1)
