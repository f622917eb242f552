-- ===== src/Migration/Item/Keeps.antt =====
-- What every call of the migration of a share keeps, the migration keeps.
use i_transfer.Base.{◌≡◌, String, not, some, List, ltb, length}
use i_transfer.Env.{Env}
use i_transfer.Migration.{Machine, Faults, find_item, find_job, are_paths_equal}
use i_transfer.Migration.Disk.{remove_tree, copy_tree, rename_tree, make_directory, exists}
use i_transfer.Migration.Item.{
  Moved, left_alone, migrate_item, item_share, move_all, move_nothing, move_share, or_undo,
  reported, set_path, assert_expected_files_exist, source_root, source_directory, target_directory,
  temp_directory, refusal,
}
use i_transfer.Migration.Item.Paths.{assert_expected-state}
use i_transfer.World.{
  World, Share, File, pure, gets, ◌>>=◌, Directory, App, Outcome, ok, throws, resume-state,
  or_throw, null_dereference, Ends, Ends-keep, Ends-if, Ends-guard, Ends-keeping, Ends-match,
  Ends-state, Ends-need, file_system_error, files_of, StorageProvider, local, s3,
  StorageMigrationJob, StorageMigrationJobItem,
}

-- The calls that the migration of a share makes keep a condition.
pub record IsKeptByCalls (env : Env) (machine : Machine) (faults : Faults)
    (job : StorageMigrationJob) (s : Share) (P : World → Type 0) : Type 0 where
  pub clear :
      (w : World) → P w → P (remove_tree faults.clear (temp_directory env machine job s) w).1
  pub undo :
      (w : World) → P w → P (remove_tree faults.undo (target_directory env machine job s) w).1
  pub clean : (w : World) → P w → P (remove_tree faults.clean (source_directory env machine s) w).1
  pub copy :
      (w : World)
      → P w
      → P
          (copy_tree faults.copy
            (source_directory env machine s)
            (temp_directory env machine job s)
            w).1
  pub rename :
      (w : World)
      → P w
      → P
          (rename_tree faults.rename
            (temp_directory env machine job s)
            (target_directory env machine job s)
            w).1
  pub make : (w : World) → P w → P (make_directory (target_directory env machine job s) w)
  pub write :
      (w : World) → P w → P (set_path faults.write_row s.id (machine.resolve job.target_path) w).1

module _ (env : Env) (machine : Machine) (faults : Faults) (job : StorageMigrationJob) (s : Share)
    (P : World → Type 0) (calls : IsKeptByCalls env machine faults job s P) where
  undone : (r : Outcome (Unit {0}) × World) → P r.1 → P (or_undo env machine faults job s r).1
  unfolding or_undo
  undone (ok _, w) p = p
  undone (throws e, w) p =
      resume-state P (remove_tree faults.undo (target_directory env machine job s) w) _
        (calls.undo w p) (λ _ _ kept. kept)

  told : (r : Outcome (Unit {0}) × World) → P r.1 → P (reported env machine faults r).1
  unfolding reported
  told (ok _, w) p = p
  told (throws e, w) p = p

  move_nothing-keeps :
      (files : List File) (w : World)
      → P w
      → Ends (λ _ w'. P w') P (move_nothing env machine faults job s files w)
  unfolding move_nothing
  move_nothing-keeps files w p =
      let R : Moved → World → Type 0 = λ _ w'. P w' in
      let root : String = machine.resolve job.target_path in
      let made : World = make_directory (target_directory env machine job s) w in
      Ends-guard R P (ltb 0 (length files)) (refusal s ": source directory is missing") w _ p λ _.
        Ends-guard R P (not faults.make) file_system_error w _ p λ _.
          Ends-keep P (set_path faults.write_row s.id root made) _
            (calls.write made (calls.make w p)) (λ _ _ kept. kept)

  move_all-keeps :
      (files : List File) (w : World)
      → P w
      → Ends (λ _ w'. P w') P (move_all env machine faults job s files w)
  unfolding move_all
  move_all-keeps files w p =
      let R : Moved → World → Type 0 = λ _ w'. P w' in
      let root : String = machine.resolve job.target_path in
      let from : Directory = source_directory env machine s in
      let to : Directory = target_directory env machine job s in
      let temp : Directory = temp_directory env machine job s in
      Ends-keeping R P (assert_expected_files_exist from files w) _ w
        (assert_expected-state from files w) p
        λ _. Ends-guard R P (not faults.make) file_system_error w _ p λ _.
          Ends-keep P (copy_tree faults.copy from temp w) _ (calls.copy w p) λ _ w1 p1.
            Ends-keeping R P (assert_expected_files_exist temp files w1) _ w1
              (assert_expected-state temp files w1) p1
              λ _.
                Ends-keep P (rename_tree faults.rename temp to w1) _ (calls.rename w1 p1) λ _ w2 p2.
                  Ends-keep P
                    (or_undo env machine faults job s (set_path faults.write_row s.id root w2)) _
                    (undone (set_path faults.write_row s.id root w2) (calls.write w2 p2))
                    λ _ w3 p3.
                      Ends-keep P (reported env machine faults (remove_tree faults.clean from w3)) _
                        (told (remove_tree faults.clean from w3) (calls.clean w3 p3))
                        (λ _ _ kept. kept)

  pub move_share-keeps :
      (w : World) → P w → Ends (λ _ w'. P w') P (move_share env machine faults job s w)
  unfolding move_share
  move_share-keeps w p =
      let R : Moved → World → Type 0 = λ _ w'. P w' in
      let to : Directory = target_directory env machine job s in
      Ends-if R P
        (are_paths_equal machine (source_root env machine s) (machine.resolve job.target_path)) _ _
        w (λ _. p)
        (λ _.
          Ends-guard R P (exists w to) (refusal s ": target directory already exists") w _ p λ _.
            Ends-keep P (remove_tree faults.clear (temp_directory env machine job s) w) _
              (calls.clear w p)
              λ _ w1 p1.
                Ends-if R P (exists w1 (source_directory env machine s)) _ _ w1
                  (λ _. move_all-keeps (files_of w1 s.id) w1 p1)
                  (λ _. move_nothing-keeps (files_of w1 s.id) w1 p1))

-- The migration of an item, for a condition that the calls for its share keep.
pub migrate_item-keeps :
    (env : Env) (machine : Machine) (faults : Faults) (item_id : String) (w : World)
    (P : World → Type 0)
    → ((item : StorageMigrationJobItem) (s : Share) (job : StorageMigrationJob)
        → find_item w item_id ≡ some item
        → item_share env machine faults w item ≡ some s
        → IsKeptByCalls env machine faults job s P)
    → P w
    → P (migrate_item env machine faults item_id w).1
unfolding migrate_item
migrate_item-keeps env machine faults item_id w P calls p =
    let R : Moved → World → Type 0 = λ _ w'. P w' in
    Ends-state P (migrate_item env machine faults item_id w) (
      Ends-match R P (find_item w item_id) _ _ w (λ _. p)
        λ item found.
          Ends-match R P (item_share env machine faults w item) _ _ w (λ _. p)
            λ s owner. provided s.storage_provider item s (λ job. calls item s job found owner))
  where
    provided :
        (provider : StorageProvider) (item : StorageMigrationJobItem) (s : Share)
        → ((job : StorageMigrationJob) → IsKeptByCalls env machine faults job s P)
        → Ends
            (λ _ w'. P w')
            P
            ((elim provider as (λ _. App Moved) [
              | s3 ↦ pure (left_alone "Share is no longer stored locally.")
              | local ↦ do
                owner ← gets (λ w. find_job w item.job_id)
                job ← or_throw null_dereference owner
                move_share env machine faults job s
            ])
              w)
    provided s3 item s kept = p
    provided local item s kept =
        Ends-need (λ _ w'. P w') P null_dereference (find_job w item.job_id) w _ p
          λ job _. move_share-keeps env machine faults job s P (kept job) w p
