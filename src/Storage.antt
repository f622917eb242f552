-- ===== src/Storage.antt =====
-- Where a share's files lie, and how they are deleted: backend/src/storage/localStoragePath.util.ts,
-- `assertShareIsNotLocked` of backend/src/config/storageMigrationLock.service.ts, and
-- `deleteAllFiles` of backend/src/file/file.service.ts and backend/src/file/local.service.ts. Of
-- backend/src/file/s3.service.ts only the outcome of `deleteAllFiles` is modelled.
use i_transfer.Base.{
  String, Bool, false, ◌&&◌, ◌||◌, Option, none, some, List, [], ◌∷◌, ◌==◌, truthy, get_or,
  delete_where, if◌then◌else◌,
}
use i_transfer.Env.{Env}
use i_transfer.World.{
  Share, StorageProvider, local, s3, Directory, App, pure, throw_if, conflict, ◌>>◌, find_share,
}

-- `getConfiguredLocalStorageRoot`
unfoldable pub configured_local_storage_root : Env → String
configured_local_storage_root env =
    get_or env.settings.share_directory (truthy env.settings.local_upload_path)

-- `resolveShareDirectory`
unfoldable pub resolve_share_directory : Env → Share → Directory
resolve_share_directory env share = record {
  root = get_or env.settings.share_directory (truthy share.local_storage_path);
  share_id = share.id;
}

abbrev pub same_directory : Directory → Directory → Bool
same_directory a b = a.root == b.root && a.share_id == b.share_id

-- `isLocked`
unfoldable pub is_locked : String → List String → Bool
is_locked id [] = false
is_locked id (x ∷ xs) = x == id || is_locked id xs

unfoldable pub assert_share_is_not_locked : String → App (Unit {0})
assert_share_is_not_locked id w =
    throw_if (is_locked id w.locked_share_ids)
      (conflict "This share is currently being moved to another storage path") w

-- `fs.rm(directory, { recursive: true, force: true })`
unfoldable pub remove_directory : Directory → App (Unit {0})
remove_directory directory w = pure tt (record w {
  disk = delete_where (λ b. same_directory b.directory directory) w.disk;
  directories = delete_where (λ d. same_directory d directory) w.directories;
})

-- `LocalFileService.deleteAllFiles`
unfoldable pub delete_all_local_files : Env → String → App (Unit {0})
unfolding resolve_share_directory remove_directory
delete_all_local_files env share_id w = elim (find_share w share_id) [
  | none ↦ pure tt w
  | some share ↦ remove_directory (resolve_share_directory env share) w
]

-- `getStorageService`: the service of the share, or of the settings where there is none.
pub storage_service : Env → Option Share → StorageProvider
storage_service env (some share) = share.storage_provider
storage_service env none = if env.settings.s3_enabled then s3 else local

unfoldable pub delete_all_files_with : Env → StorageProvider → String → App (Unit {0})
delete_all_files_with env local share_id w = delete_all_local_files env share_id w
delete_all_files_with env s3 share_id w = (env.delete_objects share_id, w)

-- `FileService.deleteAllFiles`
unfoldable pub delete_all_files : Env → String → App (Unit {0})
unfolding assert_share_is_not_locked storage_service delete_all_files_with delete_all_local_files
delete_all_files env share_id = do
  assert_share_is_not_locked share_id
  λ w. delete_all_files_with env (storage_service env (find_share w share_id)) share_id w
