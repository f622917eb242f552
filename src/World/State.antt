-- ===== src/World/State.antt =====
-- The state of the backend. `pending_scans` holds the scans that were started in the background and are
-- not over, the last one first; `update_faults` says of the next writes of jobs and items, while it
-- lasts, whether the database fails. `directories` holds the directories of shares that were made, with files
-- in them or not.
use i_transfer.Base.{String, Bool, List}
use i_transfer.World.Migrations.{StorageMigrationJob, StorageMigrationJobItem}
use i_transfer.World.Tables.{
  User, Share, ReverseShare, File, RefreshToken, LoginToken, ResetPasswordToken, ApiToken, Blob,
  Mail, Directory, PendingScan,
}

pub record World : Type 0 where
  pub users : List User
  pub shares : List Share
  pub reverse_shares : List ReverseShare
  pub files : List File
  pub refresh_tokens : List RefreshToken
  pub login_tokens : List LoginToken
  pub reset_tokens : List ResetPasswordToken
  pub api_tokens : List ApiToken
  pub disk : List Blob
  pub locked_share_ids : List String
  pub outbox : List Mail
  pub directories : List Directory
  pub migration_jobs : List StorageMigrationJob
  pub migration_items : List StorageMigrationJobItem
  pub pending_scans : List PendingScan
  pub update_faults : List Bool
