-- ===== src/World.antt =====
-- The state of the backend: the tables of backend/prisma/schema.prisma, the files under the upload
-- directory, the in-memory locks of backend/src/config/storageMigrationLock.service.ts, and the
-- mails handed to the mail server. Times are milliseconds since 1970 and are not negative; sizes
-- and quotas, which the schema keeps as strings of digits, are natural numbers.
mod Tables
pub mod Migrations
mod State
mod Queries
mod Handler
mod Lookup
mod Endings
pub use Tables.*
pub use Migrations.{StorageMigrationJob, StorageMigrationJobItem}
pub use State.*
unfoldable pub use Queries.*
pub use Handler.*
pub use Lookup.*
pub use Endings.*
