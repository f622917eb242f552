-- ===== src/Migration/Plan.antt =====
-- `validateTargetPath`, `resolveTargetRoot`, `buildMigrationPlan`, `createDryRun` and `createMigration`
-- of backend/src/config/storageMigration.service.ts. The paths of Node, and the outcome of the test
-- whether a target can be written, are a record of functions. The run of a new job is started later.
pub mod Active
use i_transfer.Base.{
  ℕ, ◌+◌, String, Bool, true, false, not, ◌&&◌, ◌||◌, Option, none, some, List, [], ◌∷◌, ◌++◌, ◌==◌,
  map, length, select, total, eqb, ltb, get_or, truthy, is_some, if◌then◌else◌,
}
use i_transfer.Env.{Env}
use i_transfer.File.Upload.{bytes_at}
use i_transfer.Migration.{
  Machine, are_paths_equal, ensure_no_active_migration, get_migration_job, sum_file_bytes,
}
use i_transfer.Migration.Disk.{exists}
use i_transfer.Migration.Item.{source_directory, source_root}
use i_transfer.Text.{codes, concat}
use i_transfer.World.{
  World, Share, File, Directory, local, s3, stored, App, Outcome, ok, throws, pure, throw, gets,
  modify, throw_if, or_throw, ◌>>=◌, ◌>>◌, bad_request, files_of, StorageMigrationJob,
  StorageMigrationJobItem,
}
use i_transfer.World.Migrations.{pending, completed}

-- `trim`, `path.isAbsolute`, `path.join` of a root and a name, `path.relative`, and the free bytes of a
-- directory that could be made and written.
pub record Volume : Type 0 where
  pub trim : String → String
  pub is_absolute : String → Bool
  pub join : Directory → String
  pub relative : (from to : String) → String
  pub probe : String → Option ℕ

-- The result of `validateTargetPath`, without what is only shown.
pub record Validation : Type 0 where
  pub normalized_path : String
  pub available_bytes : Option ℕ
  pub errors : List String

abbrev pub join_with_commas : List String → String
join_with_commas [] = ""
join_with_commas (x ∷ []) = x
join_with_commas (x ∷ xs) = concat (x ∷ ", " ∷ join_with_commas xs ∷ [])

abbrev pub when : Bool → String → List String
when true message = message ∷ []
when false message = []

-- `MigrationPlanItem`
pub record MigrationPlanItem : Type 0 where
  pub share_id : String
  pub from_directory : Directory
  pub to_directory : Directory
  pub file_count : ℕ
  pub bytes : ℕ
  pub issues : List String

pub record MigrationPlan : Type 0 where
  pub target_path : String
  pub items : List MigrationPlanItem
  pub blocking_issues : List String

-- `relativePath.startsWith("..")`
abbrev pub starts_with_up : List ℕ → Bool
starts_with_up (a ∷ b ∷ rest) = eqb a b'.' && eqb b b'.'
starts_with_up _ = false

is_file_missing : World → Directory → File → Bool
is_file_missing w d f = not (is_some (bytes_at w d (stored f.id)))

all_issues : List MigrationPlanItem → List String
all_issues [] = []
all_issues (i ∷ items) = i.issues ++ all_issues items

module _ (env : Env) (machine : Machine) (volume : Volume) where
  -- `isPathInside`
  is_path_inside : (child parent : Directory) → Bool
  is_path_inside child parent =
      let path = volume.relative (volume.join parent) (volume.join child) in
      not (path == "") && (not (starts_with_up (codes path)) && not (volume.is_absolute path))

  unfoldable pub validate_target_path : String → Validation
  validate_target_path target =
      let input = volume.trim target in
      let relative_path = not (input == "") && not (volume.is_absolute input) in
      let normalized =
        if input == "" then "" else if relative_path then input else machine.resolve input in
      let errors =
        when (input == "") "Local upload path is required"
        ++ (when relative_path "Local upload path must be absolute"
            ++ when (not (normalized == "") && machine.is_file_system_root normalized)
                "Local upload path cannot be a filesystem root") in
      let free = volume.probe normalized in
      if eqb (length errors) 0
      then record {
        normalized_path = normalized;
        available_bytes = free;
        errors = when (not (is_some free)) "Local upload path must be writable";
      }
      else record { normalized_path = normalized; available_bytes = none; errors = errors }

  -- With `throwOnInvalid`.
  require_target_path : String → App Validation
  require_target_path target = do
    let v = validate_target_path target
    throw_if (ltb 0 (length v.errors)) (bad_request (join_with_commas v.errors))
    pure v

  -- `resolveTargetRoot`
  resolve_target_root : Option String → String
  resolve_target_root (some target) = volume.trim target
  resolve_target_root none = elim (truthy env.settings.local_upload_path) [
    | some root ↦ volume.trim root
    | none ↦ machine.resolve env.settings.share_directory
  ]

  -- The issues of one share; the names of missing files are left out of the messages.
  unfoldable pub plan_item : World → String → Share → MigrationPlanItem
  unfolding is_path_inside is_file_missing
  plan_item w target s =
      let files = files_of w s.id in
      let from = source_directory env machine s in
      let to : Directory = record { root = target; share_id = s.id } in
      record {
        share_id = s.id;
        from_directory = from;
        to_directory = to;
        file_count = length files;
        bytes = sum_file_bytes files;
        issues =
            when (not (exists w from) && ltb 0 (length files))
              (concat ("Share " ∷ s.id ∷ ": source directory is missing" ∷ []))
            ++ (when (exists w to)
                  (concat ("Share " ∷ s.id ∷ ": target directory already exists" ∷ []))
                ++ (when (is_path_inside to from) (
                      concat (
                        "Share " ∷ s.id ∷ ": target directory is inside the source directory" ∷ []))
                    ++ (if exists w from
                        then map (λ _. concat ("Share " ∷ s.id ∷ ": file is missing on disk" ∷ []))
                            (select (is_file_missing w from) files)
                        else [])));
      }

  is_affected : String → Share → Bool
  is_affected target s = elim s.storage_provider [
    | s3 ↦ false
    | local ↦ not (are_paths_equal machine (source_root env machine s) target)
  ]

  exceeds : ℕ → Option ℕ → Bool
  exceeds bytes none = false
  exceeds bytes (some available) = ltb available bytes

  unfoldable pub build_migration_plan : String → App MigrationPlan
  unfolding require_target_path is_affected exceeds all_issues
  build_migration_plan target = do
    items ← gets (λ w. map (plan_item w target) (select (is_affected target) w.shares))
    v ← require_target_path target
    pure (record {
      target_path = target;
      items = items;
      blocking_issues =
          all_issues items
          ++ when (exceeds (total (λ i. i.bytes) items) v.available_bytes)
              "The target path does not have enough free space for this migration";
    })

  unfoldable pub create_dry_run : Option String → App MigrationPlan
  unfolding resolve_target_root require_target_path
  create_dry_run target = do
    v ← require_target_path (resolve_target_root target)
    build_migration_plan v.normalized_path

  -- The rows of a new job; `job_id` and `item_id` are what is drawn.
  unfoldable pub new_job : (job_id : String) → Bool → MigrationPlan → StorageMigrationJob
  new_job job_id delete_roots plan = record {
    id = job_id;
    status = if eqb (length plan.items) 0 then completed else pending;
    target_path = plan.target_path;
    total_shares = length plan.items;
    moved_shares = 0;
    skipped_shares = 0;
    failed_shares = 0;
    total_bytes = total (λ i. i.bytes) plan.items;
    moved_bytes = 0;
    delete_empty_source_roots = delete_roots;
    current_share_id = none;
    error_message = none;
    started_at = none;
    completed_at = if eqb (length plan.items) 0 then some env.now else none;
  }

  new_item :
      (job_id : String) → (item_id : String → String) → MigrationPlanItem → StorageMigrationJobItem
  new_item job_id item_id i = record {
    id = item_id i.share_id;
    job_id = job_id;
    share_id = some i.share_id;
    status = pending;
    source_path = i.from_directory;
    target_path = i.to_directory;
    files = i.file_count;
    bytes = i.bytes;
    error_message = none;
  }

  unfoldable pub insert_migration :
      (job_id : String) → (item_id : String → String) → Bool → MigrationPlan → World → World
  unfolding new_item
  insert_migration job_id item_id delete_roots plan w = record w {
    migration_jobs = new_job job_id delete_roots plan ∷ w.migration_jobs;
    migration_items = w.migration_items ++ map (new_item job_id item_id) plan.items;
  }

  unfoldable pub create_migration :
      (job_id : String)
      → (item_id : String → String) → Option String
      → Bool
      → App StorageMigrationJob
  create_migration job_id item_id target delete_roots = do
    ensure_no_active_migration
    plan ← create_dry_run target
    throw_if (ltb 0 (length plan.blocking_issues))
        (bad_request "Storage migration has blocking issues")
    modify (insert_migration job_id item_id delete_roots plan)
    get_migration_job job_id
