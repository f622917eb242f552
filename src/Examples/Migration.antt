-- ===== src/Examples/Migration.antt =====
-- The theorems on the migration at concrete inputs.
use i_transfer.Base.{
  ℕ, String, Bool, true, false, not, ◌≡◌, refl, Option, none, some, List, [], ◌∷◌, ◌==◌,
  if◌then◌else◌,
}
use i_transfer.Env.{Env}
use i_transfer.Examples.{env_signing, world, docs}
use i_transfer.Migration.{Machine, Faults, find_item, find_job, gone}
use i_transfer.Migration.Disk.{whole, part}
use i_transfer.Migration.Item.{migrate_item}
use i_transfer.Migration.Plan.{MigrationPlan, Volume, create_migration, new_job}
use i_transfer.Migration.Plan.Active.{IsCreated, create_migration-IsCreated}
use i_transfer.Migration.Run.{run_migration}
use i_transfer.Migration.Run.Steps.{HasEnded}
use i_transfer.Migration.Run.End.{run_migration-IsOver}
use i_transfer.Share.Token.{owner_claims}
use i_transfer.World.{
  World, stored, clean, ok, throws, bad_request, StorageMigrationJob, StorageMigrationJobItem,
}
use i_transfer.World.Migrations.{pending}

abbrev env : Env
env = env_signing (owner_claims docs)

-- A machine with two upload roots; every other path names its working directory.
abbrev resolve : String → String
resolve p = if p == "/data" then "/data" else if p == "/new" then "/new" else "/app"

abbrev machine : Machine
machine = record {
  is_file_system_root = λ p. false;
  rmdir = λ p. gone;
  resolve = resolve;
  to_lower_case = λ p. p;
  message = λ e. "failed";
}

-- The row of the share cannot be written, and the last removal stops before it removed anything.
abbrev faults : Faults
faults = record {
  clear = whole;
  make = true;
  copy = whole;
  rename = true;
  write_row = false;
  undo = part (λ e. false);
  clean = part (λ e. false);
}

abbrev job : StorageMigrationJob
job = record {
  id = "job";
  status = pending;
  target_path = "/new";
  total_shares = 1;
  moved_shares = 0;
  skipped_shares = 0;
  failed_shares = 0;
  total_bytes = 3;
  moved_bytes = 0;
  delete_empty_source_roots = true;
  current_share_id = none;
  error_message = none;
  started_at = none;
  completed_at = none;
}

abbrev item : StorageMigrationJobItem
item = record {
  id = "item";
  job_id = "job";
  share_id = some "docs";
  status = pending;
  source_path = record { root = "/data"; share_id = "docs" };
  target_path = record { root = "/new"; share_id = "docs" };
  files = 1;
  bytes = 3;
  error_message = none;
}

-- A share with one file, and a job that is to move it.
abbrev stocked : World
stocked = record world {
  files =
      record { id = "f"; name = b'f' ∷ []; size = 3; scan_status = clean; share_id = "docs" } ∷ [];
  disk =
      record {
        directory = record { root = "/data"; share_id = "docs" };
        entry = stored "f";
        bytes = 1 ∷ 2 ∷ 3 ∷ [];
      }
      ∷ [];
  directories = record { root = "/data"; share_id = "docs" } ∷ [];
  migration_jobs = job ∷ [];
  migration_items = item ∷ [];
}

item_there : find_item stocked "item" ≡ some item
unfolding find_item i_transfer.Base.find?
item_there = refl

job_there : find_job stocked "job" ≡ some job
unfolding find_job i_transfer.Base.find?
job_there = refl

run_migration-IsOver_example :
    ((run_migration env machine (λ _. faults) (λ _. true) "job" stocked).0 ≡ ok tt)
    × HasEnded "job" (run_migration env machine (λ _. faults) (λ _. true) "job" stocked).1
    × ((run_migration env machine (λ _. faults) (λ _. true) "job" stocked).1.locked_share_ids ≡ [])
run_migration-IsOver_example =
    run_migration-IsOver env machine (λ _. faults) (λ _. true) "job" job stocked job_there refl refl

-- A backend without a job, and a target that can be written.
abbrev idle : World
idle = record stocked { migration_jobs = []; migration_items = [] }

abbrev volume : Volume
volume = record {
  trim = λ p. p;
  is_absolute = λ p. not (p == "relative");
  join = λ d. d.root;
  relative = λ from to. "../new";
  probe = λ p. some 1000;
}

abbrev plan : MigrationPlan
plan = record {
  target_path = "/new";
  items =
      record {
        share_id = "docs";
        from_directory = record { root = "/data"; share_id = "docs" };
        to_directory = record { root = "/new"; share_id = "docs" };
        file_count = 1;
        bytes = 3;
        issues = [];
      }
      ∷ record {
        share_id = "inbox";
        from_directory = record { root = "/data"; share_id = "inbox" };
        to_directory = record { root = "/new"; share_id = "inbox" };
        file_count = 0;
        bytes = 0;
        issues = [];
      }
      ∷ [];
  blocking_issues = [];
}

creates : create_migration env machine volume "job" (λ id. id) (some "/new") false idle ≡ (
  ok (new_job env machine volume "job" false plan),
  (create_migration env machine volume "job" (λ id. id) (some "/new") false idle).1,
)
unfolding create_migration i_transfer.Migration.ensure_no_active_migration
    i_transfer.Migration.get_active_migration i_transfer.Base.find?
    i_transfer.Migration.Plan.create_dry_run i_transfer.Migration.Plan.validate_target_path
    i_transfer.Migration.Plan.build_migration_plan i_transfer.Base.select
    i_transfer.Migration.are_paths_equal i_transfer.Migration.Item.source_root
    i_transfer.Migration.Plan.plan_item i_transfer.Migration.Disk.exists
    i_transfer.Migration.Item.source_directory i_transfer.World.files_of
    i_transfer.File.Upload.bytes_at i_transfer.Base.total i_transfer.Migration.sum_file_bytes
    i_transfer.Migration.Plan.insert_migration new_job find_job
    i_transfer.Migration.get_migration_job
creates = refl

create_migration-IsCreated_example :
    IsCreated env machine volume "job"
      (λ id. id)
      (some "/new")
      false
      idle
      (new_job env machine volume "job" false plan)
      (create_migration env machine volume "job" (λ id. id) (some "/new") false idle).1
create_migration-IsCreated_example =
    create_migration-IsCreated env machine volume "job" (λ id. id) (some "/new") false idle
      (new_job env machine volume "job" false plan)
      (create_migration env machine volume "job" (λ id. id) (some "/new") false idle).1 creates
