-- ===== src/Migration/Item.antt =====
-- `migrateItem` and `assertExpectedFilesExist` of
-- backend/src/config/storageMigration.service.ts.
pub mod Paths
pub mod Bytes
pub mod Keeps
pub mod Others
pub mod Frame
use Prim.Native.String.{◌++◌}
use i_transfer.Base.{
  ℕ, String, Bool, true, false, not, ◌&&◌, Option, none, some, List, [], ◌∷◌, ◌==◌, eqb, get_or,
  ltb, truthy, length, if◌then◌else◌,
}
use i_transfer.Env.{Env}
use i_transfer.File.Upload.{bytes_at}
use i_transfer.Migration.{Machine, Faults, are_paths_equal, find_item, find_job, sum_file_bytes}
use i_transfer.Migration.Disk.{exists, make_directory, remove_tree, copy_tree, rename_tree}
use i_transfer.World.{
  World, Share, File, Directory, local, s3, stored, App, Exception, Outcome, ok, throws, pure,
  throw, gets, modify, throw_if, or_throw, caught, ◌>>=◌, ◌>>◌, bad_request, file_system_error,
  record_not_found, null_dereference, find_share, update_share, files_of, StorageMigrationJob,
  StorageMigrationJobItem,
}

-- What `migrateItem` answers: the share was left alone, or moved, with an error of the clean-up of its
-- old directory.
pub data Moved : Type 0 where
  left_alone : (message : String) → Moved
  moved : (bytes_moved : ℕ) (cleanup_error : Option String) → Moved

-- `assertExpectedFilesExist`; the message leaves the name of the file out.
pub assert_expected_files_exist : Directory → List File → App (Unit {0})
assert_expected_files_exist d [] w = (ok tt, w)
assert_expected_files_exist d (f ∷ files) w =
    let rest = assert_expected_files_exist d files w in
    elim (bytes_at w d (stored f.id)) [
      | none ↦ (throws file_system_error, w)
      | some bytes ↦
          if eqb (length bytes) f.size
          then rest
          else (throws (bad_request "File has an unexpected size after copy"), w)
    ]

abbrev pub refusal : Share → String → Exception
refusal s reason = bad_request ("Cannot move share " ++ (s.id ++ reason))

-- `prisma.share.update(…)`, which also fails where the database does.
pub set_path : Bool → String → String → App (Unit {0})
set_path works share_id root = do
  throw_if (not works) record_not_found
  update_share share_id (λ s. record s { local_storage_path = some root })
  pure tt

module _ (env : Env) (machine : Machine) where
  -- `path.resolve(share.localStoragePath || SHARE_DIRECTORY)`
  unfoldable pub source_root : Share → String
  source_root s =
      machine.resolve (get_or env.settings.share_directory (truthy s.local_storage_path))

  unfoldable pub source_directory : Share → Directory
  unfolding source_root
  source_directory s = record { root = source_root s; share_id = s.id }

  pub target_directory : StorageMigrationJob → Share → Directory
  target_directory job s = record { root = machine.resolve job.target_path; share_id = s.id }

  -- `${share.id}.migration-${jobId}`
  pub temp_directory : StorageMigrationJob → Share → Directory
  temp_directory job s = record {
    root = machine.resolve job.target_path;
    share_id = s.id ++ (".migration-" ++ job.id);
  }

module _ (env : Env) (machine : Machine) (faults : Faults) where
  -- Where there is no directory to move.
  pub move_nothing : StorageMigrationJob → Share → List File → App Moved
  move_nothing job s files = do
    throw_if (ltb 0 (length files)) (refusal s ": source directory is missing")
    throw_if (not faults.make) file_system_error
    modify (make_directory (target_directory env machine job s))
    set_path faults.write_row s.id (machine.resolve job.target_path)
    pure (moved (sum_file_bytes files) none)

  -- The row names the new root, or the copy goes and the error goes on.
  pub or_undo :
      StorageMigrationJob → Share → Outcome (Unit {0}) × World → Outcome (Unit {0}) × World
  or_undo job s (ok _, w) = (ok tt, w)
  or_undo job s (throws e, w) =
      (remove_tree faults.undo (target_directory env machine job s) >> throw e) w

  -- An exception of the last removal is only reported.
  pub reported : Outcome (Unit {0}) × World → Outcome (Option String) × World
  reported (ok _, w) = (ok none, w)
  reported (throws e, w) = (ok (some (machine.message e)), w)

  pub move_all : StorageMigrationJob → Share → List File → App Moved
  move_all job s files = do
    assert_expected_files_exist (source_directory env machine s) files
    throw_if (not faults.make) file_system_error
    copy_tree faults.copy (source_directory env machine s) (temp_directory env machine job s)
    assert_expected_files_exist (temp_directory env machine job s) files
    rename_tree faults.rename (temp_directory env machine job s)
        (target_directory env machine job s)
    λ w. or_undo job s (set_path faults.write_row s.id (machine.resolve job.target_path) w)
    cleanup_error ← λ w. reported (remove_tree faults.clean (source_directory env machine s) w)
    pure (moved (sum_file_bytes files) cleanup_error)

  pub move_share : StorageMigrationJob → Share → App Moved
  move_share job s =
      if are_paths_equal machine (source_root env machine s) (machine.resolve job.target_path)
      then pure (left_alone "Share is already on the target path.")
      else do
        occupied ← gets (λ w. exists w (target_directory env machine job s))
        throw_if occupied (refusal s ": target directory already exists")
        remove_tree faults.clear (temp_directory env machine job s)
        found ← gets (λ w. exists w (source_directory env machine s))
        files ← gets (λ w. files_of w s.id)
        if found then move_all job s files else move_nothing job s files

  -- `item.share`
  unfoldable pub item_share : World → StorageMigrationJobItem → Option Share
  item_share w item = elim item.share_id [ none ↦ none | some id ↦ find_share w id ]

  unfoldable pub migrate_item : (item_id : String) → App Moved
  unfolding move_share move_all move_nothing
  migrate_item item_id = do
    found ← gets (λ w. find_item w item_id)
    elim found as (λ _. App Moved) [
      | none ↦ pure (left_alone "Share no longer exists.")
      | some item ↦ do
        share ← gets (λ w. item_share w item)
        elim share as (λ _. App Moved) [
          | none ↦ pure (left_alone "Share no longer exists.")
          | some s ↦ elim s.storage_provider as (λ _. App Moved) [
            | s3 ↦ pure (left_alone "Share is no longer stored locally.")
            | local ↦ do
              owner ← gets (λ w. find_job w item.job_id)
              job ← or_throw null_dereference owner
              move_share job s
          ]
        ]
    ]
