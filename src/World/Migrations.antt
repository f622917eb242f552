-- ===== src/World/Migrations.antt =====
-- The tables `StorageMigrationJob` and `StorageMigrationJobItem` of backend/prisma/schema.prisma.
-- Byte counts, which the schema keeps as strings of digits, are natural numbers.
use i_transfer.Base.{ℕ, String, Bool, Option}
use i_transfer.World.Tables.{Directory}

-- The values of the two columns `status`.
pub data Status : Type 0 where
  pending running cancel_requested cancelled completed completed_with_warnings : Status
  failed skipped cleanup_failed : Status

pub record StorageMigrationJob : Type 0 where
  pub id : String
  pub status : Status
  pub target_path : String
  pub total_shares : ℕ
  pub moved_shares : ℕ
  pub skipped_shares : ℕ
  pub failed_shares : ℕ
  pub total_bytes : ℕ
  pub moved_bytes : ℕ
  pub delete_empty_source_roots : Bool
  pub current_share_id : Option String
  pub error_message : Option String
  pub started_at : Option ℕ
  pub completed_at : Option ℕ

pub record StorageMigrationJobItem : Type 0 where
  pub id : String
  pub job_id : String
  pub share_id : Option String
  pub status : Status
  pub source_path : Directory
  pub target_path : Directory
  pub files : ℕ
  pub bytes : ℕ
  pub error_message : Option String
