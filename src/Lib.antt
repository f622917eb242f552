-- ===== src/Lib.antt =====
-- A model of the backend of iTransfer, a service that shares files by link, and of the upload of
-- its desktop client: NestJS services under backend/src, over a database that Prisma reads and
-- writes, a local directory for the files, a mail server, and signed tokens in cookies.
--
-- The parts and how they interact. A request passes guards and then a service. The guards find
-- the user (by an API token or by the access token in a cookie), the share, and whether a share
-- token or an owner token comes with the request; the services read and write the tables, the
-- files and the outbox. Jobs delete what has expired.
--
-- - Base: Boolean tests, tables as lists of rows with keys, integers.
-- - World: the state (tables of backend/prisma/schema.prisma, files on the disk, locks of
--   backend/src/config/storageMigrationLock.service.ts, mails that went out); World/Handler: a
--   handler maps a state to a result or an exception and the state it leaves, so what was written
--   before an exception stays; World/Queries: the calls of Prisma; World/Endings: rules for what
--   holds at the end of a handler, whether it returns or throws.
-- - Env: the settings, the clock, and the code that is not in the repository (moment, argon2,
--   jsonwebtoken, the mail server, the S3 client), as functions of a record. `Honours` states
--   what jsonwebtoken documents about a token that it signed.
-- - Share: Expiration (`resolveExpirationDate`, backend/src/utils/date.util.ts), Lifecycle
--   (`create`, `complete`, `revertComplete`, `remove`), Edit (`updateExpiration` to
--   `updateVersioning`), Access (`get`, `getMetaData`, `getShares`, `getSharesByUser`), Token
--   (`getShareToken`, `generateShareToken`, `verifyShareToken`, the owner cookie), all of
--   backend/src/share/share.service.ts and share.controller.ts.
-- - Guard: Jwt (backend/src/auth/guard, auth/strategy), Owner (shareOwner, createShare and
--   reverseShareOwner guards), Security (shareSecurity, shareTokenSecurity and fileSecurity
--   guards), Upload (fileUpload guard).
-- - File: Name (`createAvailableFileName`), Upload (`create`) and Edit (`get`, `remove`,
--   `rename`) of backend/src/file/local.service.ts and file.service.ts.
-- - User: `update`, `delete`, `transferOwnership` of backend/src/user/user.service.ts.
-- - Auth: Session (`generateToken`, `refreshAccessToken`, `signOut`), SignIn (`signIn`,
--   `signUp`), Password (`requestResetPassword` to `verifyPassword`) of
--   backend/src/auth/auth.service.ts, Totp (authTotp.service.ts), Ldap (ldap.service.ts, and
--   `findOrCreateFromLDAP` of the user service). The directory server and the code generator are
--   records of functions, `Directory` and `Authenticator`.
-- - Migration: the move of local shares to another root, of
--   backend/src/config/storageMigration.service.ts: Disk (the calls of the file system on a
--   directory), Item (`migrateItem`), Run (`runMigration`), Plan (`createDryRun`,
--   `createMigration`). `Faults` says how each call for an item ends, so a theorem over all
--   faults covers every place at which an item can fail. `update_faults`, in the state,
--   says which writes of jobs and items fail. World/Migrations has the tables of
--   the jobs. A run takes requests to cancel between its items.
-- - Scan: the virus scan, which an upload starts in the background (`pending_scans` in the state) and
--   which ends on its own (`run_background`), with `RemovalFaults` for the calls that may fail, of
--   backend/src/clamscan/clamscan.service.ts and local.service.ts.
-- - Config: the configuration service, backend/src/config/config.service.ts (`get`, `list`,
--   `update`, `updateMany`, `validateConfigVariable`, `loadYamlConfig`), with the built-in
--   variables of config-defaults.ts in Defaults. It has a state of its own, the rows in the table
--   and in memory; Text/Numbers has `parseInt` and the decimal digits.
-- - Desktop: the names under which the desktop application uploads files (`prepareUploadItems`,
--   desktop/src/main.ts), the upload of a file in chunks (`uploadFile`), whose requests are
--   handled by File/Upload, and the loop over the files (Transfer, the loop of `uploadFiles`).
--   File/Upload/Progress and File/Upload/Stored say what a chunk in its turn leaves,
--   File/Upload/Room what a file leaves to those after it.
-- - ReverseShare, Jobs, ApiToken, Email, Storage: the services of those names.
-- - Examples: a small backend, and the theorems at concrete inputs.
--
-- The file system. A file lies in a directory, which is a root and the id of a share; two spellings of
-- one path are two roots, so a relative upload directory is not its resolved form, and the theorem on
-- the files of a migration asks for resolved roots. An upload fails where the share's directory is
-- missing. Other failures of the disk are modelled in a migration and in a removal only.
--
-- Numbers, bounds and fuel. Times are milliseconds and natural numbers, as are sizes; a
-- JavaScript number holds them exactly below 2^53. The search for a free file name runs on fuel,
-- one step for each name in use, after which a free name must have come up, as the candidates
-- differ; the digits of a number are taken with the number itself as fuel. The client's loop over
-- the chunks runs on fuel, one for each chunk and one for the end, which is enough where every
-- chunk is taken. Names are lists of UTF-16 code units where the code looks into them, and
-- strings elsewhere.
--
-- A handler runs alone, but for the requests to cancel a migration: two requests at once, and
-- what they lose or double, are outside the model. Of directories the state holds those that the
-- services make and remove for a share; an upload root that a migration deletes is empty, so its
-- deletion changes no file. The settings that the handlers read are a record, `Settings`, and not
-- the state of Config. A number in an update of the configuration is an integer. Not modelled:
-- OAuth (backend/src/oauth), zip archives, S3 storage but for the deletion of a share's objects,
-- which is an argument, the texts of mails, the frontend, and of the desktop application all but
-- the names and the upload of files.
pub mod Base
pub mod World
pub mod Env
pub mod Text
pub mod ApiToken
pub mod Guard
pub mod Email
pub mod Storage
pub mod Share
pub mod File
pub mod User
pub mod Auth
pub mod ReverseShare
pub mod Jobs
pub mod Migration
pub mod Scan
pub mod Desktop
pub mod Config
mod Examples
