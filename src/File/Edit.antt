-- ===== src/File/Edit.antt =====
-- Reading, removing and renaming a file: `get`, `remove` and `rename` of
-- backend/src/file/file.service.ts and backend/src/file/local.service.ts. What the S3 service does instead is
-- an argument.
pub mod Names
pub mod Reads
use i_transfer.Base.{
  ℕ, String, Bool, true, false, not, ◌&&◌, Option, none, some, List, [], ◌∷◌, ◌==◌, map, length,
  eqb, find?, select, update_where, delete_where, if◌then◌else◌,
}
use i_transfer.Env.{Env}
use i_transfer.File.Name.{create_available_file_name}
use i_transfer.File.Upload.{bytes_at, remove_file}
use i_transfer.Storage.{assert_share_is_not_locked, resolve_share_directory}
use i_transfer.Text.{trim}
use i_transfer.World.{
  World, Share, File, ScanStatus, unscanned, clean, pending, infected, error, StorageProvider,
  local, s3, stored, App, Outcome, ok, throws, pure, throw, gets, modify, throw_if, or_throw, ◌>>=◌,
  ◌>>◌, bad_request, not_found, null_dereference, internal_server_error, find_share, find_file,
  files_of, update_share, update_file,
}

-- `getStorageService(share.storageProvider)` and the call of the service that it picks.
unfoldable pub on_service : {A : Type 0} → (on_s3 on_disk : App A) → String → App A
on_service on_s3 on_disk share_id w = elim (find_share w share_id) [
  | none ↦ throw null_dereference w
  | some share ↦ elim share.storage_provider [ local ↦ on_disk w | s3 ↦ on_s3 w ]
]

abbrev pub is_withheld : ScanStatus → Bool
is_withheld unscanned = false
is_withheld clean = false
is_withheld pending = true
is_withheld infected = true
is_withheld error = true

pub record Download : Type 0 where
  pub file : File
  pub bytes : Option (List ℕ)

module _ (env : Env) where
  -- The row of the file and its share; the share of a file is there by the foreign key.
  with_share : {A : Type 0} → String → (File → Share → App A) → App A
  with_share file_id k w = elim (find_file w file_id) [
    | none ↦ throw (not_found "File not found") w
    | some f ↦ elim (find_share w f.share_id) [
      | none ↦ throw null_dereference w
      | some share ↦ k f share w
    ]
  ]

  -- The bytes are none where the stream will fail, as the file is not on the disk.
  read : File → Share → App Download
  read f share = do
    throw_if (is_withheld f.scan_status) (not_found "File not found")
    gets (λ w. record {
      file = f;
      bytes = bytes_at w (resolve_share_directory env share) (stored f.id);
    })

  unfoldable pub get_local : String → App Download
  unfolding read with_share
  get_local file_id = with_share file_id read

  -- `fs.unlink`, which fails where there is no file, and `prisma.file.delete`
  unlink : File → Share → App (Unit {0})
  unfolding remove_file
  unlink f share w = elim (bytes_at w (resolve_share_directory env share) (stored f.id)) [
    | none ↦ throw (internal_server_error "ENOENT") w
    | some _ ↦
        let w' = remove_file (resolve_share_directory env share) (stored f.id) w in
        (ok tt, record w' { files = delete_where (λ x. x.id == f.id) w'.files })
  ]

  unfoldable pub remove_local : String → App (Unit {0})
  unfolding unlink with_share
  remove_local file_id = with_share file_id unlink

  unfoldable pub get : App Download → String → String → App Download
  get on_s3 share_id file_id = on_service on_s3 (get_local file_id) share_id

  unfoldable pub remove : App (Unit {0}) → String → String → App (Unit {0})
  remove on_s3 share_id file_id = do
    assert_share_is_not_locked share_id
    on_service on_s3 (remove_local file_id) share_id

-- `name?.trim()`
pub desired_name : Option (List ℕ) → List ℕ
desired_name none = []
desired_name (some name) = trim name

-- `where: { id: fileId, shareId }`
unfoldable pub find_file_of : World → (file_id share_id : String) → Option File
find_file_of w file_id share_id = find? (λ f. f.id == file_id && f.share_id == share_id) w.files

-- The names that the renamed file may not take.
unfoldable pub other_names : World → (file_id share_id : String) → List (List ℕ)
other_names w file_id share_id =
    map (λ f. f.name) (select (λ f. not (f.id == file_id)) (files_of w share_id))

-- `if (fileMetaData.share.uploadLocked) …`
pub reset_zip : Option Share → App (Unit {0})
reset_zip none w = throw null_dereference w
reset_zip (some share) w =
    if share.upload_locked
    then ((update_share share.id (λ s. record s { is_zip_ready = false }) >> pure tt) w)
    else (ok tt, w)

unfoldable pub rename_local : (share_id file_id : String) → Option (List ℕ) → App File
unfolding desired_name reset_zip
rename_local share_id file_id name = do
  throw_if (eqb (length (desired_name name)) 0) (bad_request "File name is required")
  found ← gets (λ w. find_file_of w file_id share_id)
  _ ← or_throw (not_found "File not found") found
  share ← gets (λ w. find_share w share_id)
  file_name ←
      gets (λ w. create_available_file_name (desired_name name) (other_names w file_id share_id))
  file ← update_file file_id (λ f. record f { name = file_name })
  reset_zip share
  pure file

unfoldable pub rename : App File → (share_id file_id : String) → Option (List ℕ) → App File
rename on_s3 share_id file_id name = do
  assert_share_is_not_locked share_id
  on_service on_s3 (rename_local share_id file_id name) share_id
