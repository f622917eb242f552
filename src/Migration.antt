-- ===== src/Migration.antt =====
-- The migration of local shares to another upload root:
-- backend/src/config/storageMigration.service.ts, and `lock` and `unlock` of
-- backend/src/config/storageMigrationLock.service.ts. Node's `path.resolve`, `toLowerCase` and the
-- message of an exception are a record of functions; how the calls of the file system and the
-- database end is a record of faults.
pub mod Disk
pub mod Item
pub mod Frame
pub mod Run
pub mod Plan
use i_transfer.Base.{
  ℕ, ◌+◌, String, Bool, true, false, not, ◌||◌, Option, none, some, List, [], ◌∷◌, ◌==◌, find?,
  select, update_where, delete_where, if◌then◌else◌, total,
}
use i_transfer.Env.{Env}
use i_transfer.Migration.Disk.{Extent}
use i_transfer.World.{
  World, File, App, Exception, Outcome, ok, throws, pure, throw, gets, modify, or_throw, throw_if,
  ◌>>=◌, ◌>>◌, not_found, bad_request, record_not_found, database_error, StorageMigrationJob,
  StorageMigrationJobItem,
}
use i_transfer.World.Migrations.{
  Status, pending, running, cancel_requested, cancelled, completed, completed_with_warnings, failed,
  skipped, cleanup_failed,
}

-- How `fs.rmdir` ends: the directory is gone, was not there, is not empty (`ENOTEMPTY`, `EEXIST`), or
-- stays for another reason.
pub data Removal : Type 0 where
  gone not_there not_empty : Removal
  refused : (message : String) → Removal

-- `path.resolve`, `toLowerCase`, whether a path is `path.parse(path).root`, `error.message`, and
-- `fs.rmdir`.
pub record Machine : Type 0 where
  pub is_file_system_root : String → Bool
  pub rmdir : String → Removal
  pub resolve : String → String
  pub to_lower_case : String → String
  pub message : Exception → String

-- How the calls for one share end.
pub record Faults : Type 0 where
  pub clear : Extent
  pub make : Bool
  pub copy : Extent
  pub rename : Bool
  pub write_row : Bool
  pub undo : Extent
  pub clean : Extent

-- `ACTIVE_JOB_STATUSES`
abbrev pub is_active : Status → Bool
is_active pending = true
is_active running = true
is_active cancel_requested = true
is_active _ = false

unfoldable pub find_job : World → String → Option StorageMigrationJob
find_job w id = find? (λ j. j.id == id) w.migration_jobs

unfoldable pub find_item : World → String → Option StorageMigrationJobItem
find_item w id = find? (λ i. i.id == id) w.migration_items

pub items_of : World → String → List StorageMigrationJobItem
items_of w job_id = select (λ i. i.job_id == job_id) w.migration_items

-- A write of the database, which fails where `update_faults` says so.
pub attempt : List Bool → App (Unit {0}) → App (Unit {0})
attempt [] write w = write w
attempt (true ∷ faults) write w = (throws database_error, record w { update_faults = faults })
attempt (false ∷ faults) write w = write (record w { update_faults = faults })

write_job : String → (StorageMigrationJob → StorageMigrationJob) → App (Unit {0})
write_job id f w = elim (find_job w id) [
  | none ↦ (throws record_not_found, w)
  | some j ↦
      (ok tt, record w { migration_jobs = update_where (λ j. j.id == id) f w.migration_jobs })
]

-- `prisma.storageMigrationJob.update`
pub update_job : String → (StorageMigrationJob → StorageMigrationJob) → App (Unit {0})
unfolding attempt write_job
update_job id f w = attempt w.update_faults (write_job id f) w

write_item : String → (StorageMigrationJobItem → StorageMigrationJobItem) → App (Unit {0})
write_item id f w = elim (find_item w id) [
  | none ↦ (throws record_not_found, w)
  | some i ↦
      (ok tt, record w { migration_items = update_where (λ i. i.id == id) f w.migration_items })
]

-- `prisma.storageMigrationJobItem.update`
pub update_item : String → (StorageMigrationJobItem → StorageMigrationJobItem) → App (Unit {0})
unfolding attempt write_item
update_item id f w = attempt w.update_faults (write_item id f) w

-- `getMigrationJob`
unfoldable pub get_migration_job : String → App StorageMigrationJob
get_migration_job id w = or_throw (not_found "Storage migration job not found") (find_job w id) w

-- `getActiveMigration`, for a list of jobs with the newest first.
unfoldable pub get_active_migration : World → Option StorageMigrationJob
get_active_migration w = find? (λ j. is_active j.status) w.migration_jobs

-- `ensureNoActiveMigration`
unfoldable pub ensure_no_active_migration : App (Unit {0})
ensure_no_active_migration w = elim (get_active_migration w) [
  | none ↦ (ok tt, w)
  | some j ↦ (throws (bad_request "A storage migration is already running"), w)
]

-- The service's `Set` of locked shares.
pub lock : String → World → World
lock id w = record w { locked_share_ids = id ∷ delete_where (λ x. x == id) w.locked_share_ids }

pub unlock : String → World → World
unlock id w = record w { locked_share_ids = delete_where (λ x. x == id) w.locked_share_ids }

-- `arePathsEqual`
unfoldable pub are_paths_equal : Machine → String → String → Bool
are_paths_equal m a b = m.to_lower_case (m.resolve a) == m.to_lower_case (m.resolve b)

-- `sumFileBytes`
unfoldable pub sum_file_bytes : List File → ℕ
sum_file_bytes files = total (λ f. f.size) files

-- `onModuleInit`: what a restart does with the jobs that were not at their end.
unfoldable pub on_module_init : Env → World → World
on_module_init env w =
    let interrupted : String = "Migration was interrupted by a backend restart." in
    elim (get_active_migration w) [
      | none ↦ w
      | some _ ↦ record w {
        migration_jobs =
            update_where (λ j. is_active j.status)
              (λ j. record j {
                status = failed;
                error_message = some interrupted;
                completed_at = some env.now;
                current_share_id = none;
              })
              w.migration_jobs;
        migration_items =
            update_where (λ i. is_active i.status)
              (λ i. record i { status = failed; error_message = some interrupted })
              w.migration_items;
      }
    ]

-- `cancelMigration`
pub cancel_migration : Env → String → App StorageMigrationJob
unfolding get_migration_job
cancel_migration env id = do
  job ← get_migration_job id
  elim job.status as (λ _. App (Unit {0})) [
    | pending ↦ update_job id (λ j. record j { status = cancelled; completed_at = some env.now })
    | running ↦ update_job id (λ j. record j { status = cancel_requested })
    | cancel_requested ↦ pure tt
    | cancelled ↦ pure tt
    | completed ↦ pure tt
    | completed_with_warnings ↦ pure tt
    | failed ↦ pure tt
    | skipped ↦ pure tt
    | cleanup_failed ↦ pure tt
  ]
  get_migration_job id
