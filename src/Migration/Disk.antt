-- ===== src/Migration/Disk.antt =====
-- The calls of Node's file system that the migration makes on a directory: `existsSync`, `mkdir`,
-- `rm`, `cp` and `rename`.
pub mod Reads
use i_transfer.Base.{
  ℕ, suc, Bool, true, false, ◌&&◌, ◌||◌, Option, none, some, List, [], ◌∷◌, ◌++◌, map, find?,
  select, is_some, delete_where, update_where, if◌then◌else◌, length,
}
use i_transfer.Storage.{same_directory}
use i_transfer.World.{World, Directory, Blob, Entry, App, ok, throws, file_system_error}

-- How a call that removes or copies a directory ends: with all of its files done, or with an
-- exception after those that pass a test.
pub data Extent : Type 0 where
  whole : Extent
  part : (Entry → Bool) → Extent

abbrev pub is_in : Directory → Blob → Bool
is_in d b = same_directory b.directory d

-- `fs.existsSync(directory)`
unfoldable pub exists : World → Directory → Bool
exists w d =
    is_some (find? (is_in d) w.disk) || is_some (find? (λ x. same_directory x d) w.directories)

-- `fs.mkdir(directory, { recursive: true })`
unfoldable pub make_directory : Directory → World → World
make_directory d w = record w { directories = d ∷ w.directories }

-- `fs.rm(directory, { recursive: true, force: true })`
unfoldable pub remove_tree : Extent → Directory → App (Unit {0})
remove_tree whole d w = (
  ok tt,
  record w {
    disk = delete_where (is_in d) w.disk;
    directories = delete_where (λ x. same_directory x d) w.directories;
  },
)
remove_tree (part done) d w = (
  throws file_system_error,
  record w { disk = delete_where (λ b. is_in d b && done b.entry) w.disk },
)

-- The same file in another directory.
abbrev pub moved_to : Directory → Blob → Blob
moved_to d b = record b { directory = d }

-- `fs.cp(from, to, { recursive: true, errorOnExist: true, force: false })`, into a directory that is
-- not there.
unfoldable pub copy_tree : Extent → (from to : Directory) → App (Unit {0})
unfolding make_directory
copy_tree whole from to w = (
  ok tt,
  make_directory to (record w { disk = w.disk ++ map (moved_to to) (select (is_in from) w.disk) }),
)
copy_tree (part done) from to w = (
  throws file_system_error,
  make_directory to (record w {
    disk = w.disk ++ map (moved_to to) (select (λ b. is_in from b && done b.entry) w.disk);
  }),
)

-- `fs.rename(from, to)`, or an exception.
unfoldable pub rename_tree : Bool → (from to : Directory) → App (Unit {0})
rename_tree true from to w = (
  ok tt,
  record w {
    disk = update_where (is_in from) (moved_to to) w.disk;
    directories = update_where (λ x. same_directory x from) (λ _. to) w.directories;
  },
)
rename_tree false from to w = (throws file_system_error, w)
