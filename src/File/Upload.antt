-- ===== src/File/Upload.antt =====
-- The upload of a file in chunks: `create` of backend/src/file/local.service.ts. The decoded bytes
-- of the chunk, the identifier that is drawn for a new file, the test for a UUID (package uuid) and
-- the free space on the disk are arguments. Chunk numbers are natural numbers.
pub mod Limits
pub mod Acceptance
pub mod Disk
pub mod Progress
pub mod Stored
pub mod Room
use i_transfer.Base.{
  ℕ, ◌+◌, ◌-◌, ◌/◌, ◌≡◌, String, Bool, true, false, not, ◌&&◌, ◌||◌, Option, none, some, List, [],
  ◌∷◌, ◌++◌, ◌==◌, map, length, find?, select, delete_where, update_where, total, truthy, is_some,
  same, eqb, ltb, if◌then◌else◌,
}
use mathlib.Core.Option
use i_transfer.Env.{Env}
use i_transfer.File.Name.{create_available_file_name}
use i_transfer.Guard.Upload.{UploadRights}
use i_transfer.Migration.Disk.{exists}
use i_transfer.Storage.{
  is_locked, assert_share_is_not_locked, resolve_share_directory, same_directory,
}
use i_transfer.World.{
  World, User, Share, ReverseShare, File, unscanned, Directory, Entry, tmp_chunk, stored, Blob, App,
  Outcome, ok, throws, pure, throw, gets, modify, throw_if, or_throw, ◌>>=◌, ◌>>◌, bad_request,
  not_found, unexpected_chunk, file_system_error, internal_server_error, payload_too_large,
  unique_violation, find_share, find_file, files_of, reverse_share_of, creator_of, update_share,
}

pub record Chunk : Type 0 where
  pub index : ℕ
  pub total : ℕ

pub record FileQuery : Type 0 where
  pub id : Option String
  pub name : List ℕ
  pub replace_file_id : Option String

-- What the service takes from its surroundings for one chunk.
pub record Arrival : Type 0 where
  pub bytes : List ℕ
  pub fresh_id : String
  pub is_valid_uuid : String → Bool
  pub available_space : ℕ

abbrev pub same_entry : Entry → Entry → Bool
same_entry (tmp_chunk a) (tmp_chunk b) = a == b
same_entry (stored a) (stored b) = a == b
same_entry _ _ = false

abbrev pub is_at : Directory → Entry → Blob → Bool
is_at directory entry b = same_directory b.directory directory && same_entry b.entry entry

-- The bytes of a file on the disk, and none where there is no file.
unfoldable pub bytes_at : World → Directory → Entry → Option (List ℕ)
bytes_at w directory entry = Option.map (λ b. b.bytes) (find? (is_at directory entry) w.disk)

unfoldable pub bytes_of : Option (List ℕ) → List ℕ
bytes_of none = []
bytes_of (some bytes) = bytes

-- `fs.appendFile` in a directory that is there.
append_file : Directory → Entry → List ℕ → World → World
append_file directory entry bytes w = record w {
  disk =
      record {
        directory = directory;
        entry = entry;
        bytes = bytes_of (bytes_at w directory entry) ++ bytes;
      }
      ∷ delete_where (is_at directory entry) w.disk;
}

-- `fs.rm(…, { force: true })`
unfoldable pub remove_file : Directory → Entry → World → World
remove_file directory entry w = record w { disk = delete_where (is_at directory entry) w.disk }

-- `fs.rename` of a file with these bytes, over a file that may be there.
rename_file : Directory → Entry → Entry → World → World
rename_file directory from to w = record w {
  disk =
      record { directory = directory; entry = to; bytes = bytes_of (bytes_at w directory from) }
      ∷ delete_where (is_at directory to) (delete_where (is_at directory from) w.disk);
}

-- `Math.ceil(size / chunkSize)`, for a positive chunk size.
unfoldable pub expected_chunk_index : Env → ℕ → ℕ
expected_chunk_index env size = (size + env.settings.chunk_size - 1) / env.settings.chunk_size

abbrev pub sizes : List File → ℕ
sizes files = total (λ f. f.size) files

-- `getUserStorageUsageBytes`
unfoldable pub user_storage_usage : World → Option String → ℕ
user_storage_usage w user_id = elim (truthy user_id) [
  | none ↦ 0
  | some id ↦ sizes (
      select
        (λ f. elim (find_share w f.share_id) [
          | none ↦ false
          | some s ↦ same s.creator_id (some id)
        ])
        w.files)
]

-- What the checks find out about a chunk that they let pass.
pub record Plan : Type 0 where
  pub file_id : String
  pub file_name : List ℕ
  pub share : Share
  pub directory : Directory
  pub versioned : List File
  pub disk_size : ℕ

unfoldable pub file_id_of : Arrival → Option String → App String
file_id_of a id w = elim (truthy id) [
  | none ↦ pure a.fresh_id w
  | some given ↦
      if a.is_valid_uuid given then pure given w else throw (bad_request "Invalid file ID format") w
]

-- `canReplace && !!file.replaceFileId`, and the file that is to be replaced.
unfoldable pub replacement_of : UploadRights → FileQuery → Option String
replacement_of rights q =
    if rights.allow_versioning || rights.is_share_owner_upload
    then truthy q.replace_file_id
    else none

unfoldable pub versioned_files : Option String → List File → List File
versioned_files none files = []
versioned_files (some id) files = select (λ f. f.id == id) files

unfoldable pub kept_files : Option String → List File → List File
kept_files none files = files
kept_files (some id) files = delete_where (λ f. f.id == id) files

unfoldable pub make_plan : Env → FileQuery → UploadRights → Share → String → World → Plan
make_plan env q rights share file_id w =
    let files = files_of w share.id in
    let replacement = replacement_of rights q in
    let directory = resolve_share_directory env share in
    record {
      file_id = file_id;
      file_name =
          create_available_file_name q.name (map (λ f. f.name) (kept_files replacement files));
      share = share;
      directory = directory;
      versioned = versioned_files replacement files;
      disk_size = length (bytes_of (bytes_at w directory (tmp_chunk file_id)));
    }

-- `shareSizeSum > maxSize || reverseShare?.maxShareSize && shareSizeSum > …`
unfoldable pub exceeds_share_size : Env → Option ReverseShare → ℕ → Bool
exceeds_share_size env none sum = ltb env.settings.max_size sum
exceeds_share_size env (some r) sum = ltb env.settings.max_size sum || ltb r.max_share_size sum

unfoldable pub exceeds_quota : Option User → ℕ → Bool
exceeds_quota none usage = false
exceeds_quota (some u) usage = elim u.storage_quota_bytes [
  | none ↦ false
  | some quota ↦ ltb quota usage
]

module _ (env : Env) where
  -- The checks on the sizes, of the chunk against the disk, the share and the creator's quota.
  unfoldable pub check_sizes : Arrival → Plan → App (Unit {0})
  check_sizes a plan = do
    throw_if (ltb a.available_space (length a.bytes))
        (internal_server_error "Not enough space on the server")
    files ← gets (λ w. files_of w plan.share.id)
    reverse_share ← gets (λ w. reverse_share_of w plan.share)
    throw_if
        (exceeds_share_size env reverse_share
          (sizes files - sizes plan.versioned + plan.disk_size + length a.bytes))
        (payload_too_large "Max share size exceeded")
    usage ← gets (λ w. user_storage_usage w plan.share.creator_id)
    creator ← gets (λ w. creator_of w plan.share)
    throw_if
        (exceeds_quota creator (usage - sizes plan.versioned + plan.disk_size + length a.bytes))
        (payload_too_large "User storage quota exceeded")

  -- Everything that is checked before the first write.
  unfoldable pub plan_upload : Arrival → Chunk → FileQuery → String → UploadRights → App Plan
  plan_upload a chunk q share_id rights = do
    file_id ← file_id_of a q.id
    found ← gets (λ w. find_share w share_id)
    share ← or_throw (not_found "Share not found") found
    assert_share_is_not_locked share_id
    throw_if (share.upload_locked && not rights.allow_completed_share_upload)
        (bad_request "Share is already completed")
    plan ← gets (λ w. make_plan env q rights share file_id w)
    throw_if (is_some (replacement_of rights q) && eqb (length plan.versioned) 0)
        (bad_request "Replacement file not found")
    throw_if
        (share.upload_locked
          && (not rights.is_share_owner_upload
              && (rights.allow_versioning
                  && (not rights.allow_public_upload && not (is_some (replacement_of rights q))))))
        (bad_request "Versioning requires an existing file name")
    throw_if (not (eqb (expected_chunk_index env plan.disk_size) chunk.index))
        (unexpected_chunk (expected_chunk_index env plan.disk_size))
    made ← gets (λ w. exists w plan.directory)
    throw_if (not made) file_system_error
    check_sizes a plan
    assert_share_is_not_locked share_id
    pure plan

remove_files : Directory → List File → World → World
remove_files directory [] w = w
remove_files directory (f ∷ files) w =
    remove_files directory files (remove_file directory (stored f.id) w)

is_among : List File → String → Bool
is_among [] id = false
is_among (f ∷ files) id = f.id == id || is_among files id

-- `prisma.file.create`
insert_file : File → App (Unit {0})
insert_file f w = elim (find_file w f.id) [
  | none ↦ pure tt (record w { files = f ∷ w.files })
  | some other ↦ throw unique_violation w
]

-- `void this.scanFileInBackground(…)`: the scan is started, and not waited for.
start_scan : Plan → World → World
start_scan plan w = record w {
  pending_scans =
      record {
        share_id = plan.share.id;
        directory = plan.directory;
        file_id = plan.file_id;
        file_name = plan.file_name;
      }
      ∷ w.pending_scans;
}

-- The writes of the last chunk.
unfoldable pub store_file : Plan → App (Unit {0})
unfolding rename_file remove_files remove_file is_among insert_file bytes_of start_scan
store_file plan = do
  modify (rename_file plan.directory (tmp_chunk plan.file_id) (stored plan.file_id))
  size ← gets (λ w. length (bytes_of (bytes_at w plan.directory (stored plan.file_id))))
  modify (remove_files plan.directory plan.versioned)
  modify (λ w. record w {
    files = delete_where (λ f. f.share_id == plan.share.id && is_among plan.versioned f.id) w.files;
  })
  insert_file (record {
    id = plan.file_id;
    name = plan.file_name;
    size = size;
    scan_status = unscanned;
    share_id = plan.share.id;
  })
  modify (start_scan plan)
  if plan.share.upload_locked
      then (update_share plan.share.id (λ s. record s { is_zip_ready = false }) >> pure tt)
      else pure tt

unfoldable pub write_chunk : Arrival → Chunk → Plan → App (Unit {0})
unfolding append_file store_file
write_chunk a chunk plan = do
  made ← gets (λ w. exists w plan.directory)
  throw_if (not made) file_system_error
  modify (append_file plan.directory (tmp_chunk plan.file_id) a.bytes)
  if eqb (chunk.index + 1) chunk.total then store_file plan else pure tt

-- `LocalFileService.create`: the id and the name of the file.
unfoldable pub create :
    Env → Arrival → Chunk → FileQuery → String → UploadRights → App (String × List ℕ)
create env a chunk q share_id rights = do
  plan ← plan_upload env a chunk q share_id rights
  write_chunk a chunk plan
  pure (plan.file_id, plan.file_name)
