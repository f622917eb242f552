-- ===== src/Scan/Malware.antt =====
-- What a scan in the background leaves of a share.
use i_transfer.Base.{
  ◌≡◌, refl, ℕ, String, Bool, true, false, none, some, List, [], ◌∷◌, ◌==◌, select, delete_where,
  eq_refl, eq_iff, arith, ap, ◌∙◌, Option, not, ◌&&◌, update_where, Bool-cases, inl, inr,
  if◌then◌else◌,
}
use i_transfer.File.Upload.{bytes_at}
use i_transfer.Migration.Disk.Reads.{at, at-remove_self}
use i_transfer.Scan.{
  Scanner, RemovalFaults, reason_for, remove_or_leave, remove_infected, scan_file_in_background,
  scan_local_file, is_bad_request,
}
use i_transfer.Storage.{remove_directory, same_directory}
use i_transfer.World.{
  World, Share, File, Blob, Directory, Entry, stored, find_share, files_of, update_share,
  find?-update_share,
}

select-delete_where : {A : Type 0} (p : A → Bool) (xs : List A) → select p (delete_where p xs) ≡ []
unfolding select delete_where
select-delete_where p [] = refl
select-delete_where p (x ∷ xs) = ground (arith, select-delete_where p xs)

-- The bytes of the directory: none, or what a failed removal left.
abbrev pub BytesAre : Option (Blob → Bool) → Directory → (w w' : World) → Type 0
BytesAre none directory w w' = (e : Entry) → bytes_at w' directory e ≡ none
BytesAre (some stays) directory w w' =
    w'.disk ≡ delete_where (λ b. same_directory b.directory directory && not (stays b)) w.disk

-- What each call of the removal was to do, where it did not fail: the share has no bytes, no rows of
-- files, and a reason. The rows of every other share and of its files are as they were.
pub record IsCleared (faults : RemovalFaults) (share_id : String) (directory : Directory)
    (reason : String) (s : Share) (w w' : World) : Type 0 where
  pub bytes_are : BytesAre faults.left directory w w'
  pub files_are : files_of w' share_id ≡ (if faults.deletes then [] else files_of w share_id)
  pub share_is :
      find_share w' share_id
      ≡ some (
          if faults.updates
          then record s { is_zip_ready = false; removed_reason = some reason }
          else s)
  pub other_shares : (id : String) → (share_id == id) ≡ false → find_share w' id ≡ find_share w id
  pub other_files : (id : String) → (share_id == id) ≡ false → files_of w' id ≡ files_of w id

remove_or_leave-BytesAre :
    (left : Option (Blob → Bool)) (directory : Directory) (w : World)
    → BytesAre left directory w (remove_or_leave left directory w)
unfolding remove_or_leave remove_directory bytes_at
remove_or_leave-BytesAre none directory w = λ e. at-remove_self directory w.disk e
remove_or_leave-BytesAre (some stays) directory w = refl

-- The disk is as the first call left it.
BytesAre-disk :
    (left : Option (Blob → Bool)) (directory : Directory) (w v v' : World)
    → v'.disk ≡ v.disk
    → BytesAre left directory w v
    → BytesAre left directory w v'
unfolding bytes_at
BytesAre-disk none directory w v v' same bytes =
    λ e. ap (λ disk. at disk directory e) same ∙ bytes e
BytesAre-disk (some stays) directory w v v' same bytes = same ∙ bytes

remove_or_leave-tables :
    (left : Option (Blob → Bool)) (directory : Directory) (w : World)
    → ((remove_or_leave left directory w).files ≡ w.files)
      × ((remove_or_leave left directory w).shares ≡ w.shares)
unfolding remove_or_leave remove_directory
remove_or_leave-tables none directory w = (refl, refl)
remove_or_leave-tables (some stays) directory w = (refl, refl)

select-others :
    (share_id id : String) (files : List File)
    → (share_id == id) ≡ false
    → select (λ f. f.share_id == id) (delete_where (λ f. f.share_id == share_id) files)
      ≡ select (λ f. f.share_id == id) files
unfolding select delete_where
select-others share_id id [] other = refl
select-others share_id id (f ∷ files) other = elim (Bool-cases (f.share_id == share_id)) [
  | inl mine ↦
      let same : f.share_id ≡ share_id = (eq_iff f.share_id share_id).0 mine in
      rw (mine, ap (λ x. x == id) same ∙ other) (select-others share_id id files other)
  | inr theirs ↦
      rw theirs
        (ap (λ x. if f.share_id == id then f ∷ x else x) (select-others share_id id files other))
]

module _ (faults : RemovalFaults) (directory : Directory) (share_id reason : String) (s : Share)
    (w : World) (row : find_share w share_id ≡ some s) where
  abbrev mark : Share → Share
  mark s = record s { is_zip_ready = false; removed_reason = some reason }

  abbrev removed : World
  removed = remove_infected faults directory share_id mark w

  abbrev first : World
  first = remove_or_leave faults.left directory w

  removed-disk : removed.disk ≡ first.disk
  unfolding remove_infected remove_or_leave update_share
  removed-disk = ground arith

  removed-files :
      removed.files
      ≡ (if faults.deletes then delete_where (λ f. f.share_id == share_id) w.files else w.files)
  unfolding remove_infected update_share
  removed-files = ground (arith, (remove_or_leave-tables faults.left directory w).0)

  removed-shares :
      removed.shares
      ≡ (if faults.updates then update_where (λ s. s.id == share_id) mark w.shares else w.shares)
  unfolding remove_infected update_share find_share
  removed-shares = ground (arith, (remove_or_leave-tables faults.left directory w).1, row)

  remove_infected-IsCleared : IsCleared faults share_id directory reason s w removed
  unfolding files_of find_share
  remove_infected-IsCleared = record {
    bytes_are =
        BytesAre-disk faults.left directory w first removed removed-disk
          (remove_or_leave-BytesAre faults.left directory w);
    files_are =
        ground (arith, removed-files, select-delete_where (λ f. f.share_id == share_id) w.files);
    share_is = ground (
      arith,
      removed-shares,
      row,
      eq_refl share_id,
      find?-update_share share_id share_id mark w.shares (λ t. refl),
    );
    other_shares = λ id other.
        ground (arith, removed-shares, find?-update_share share_id id mark w.shares (λ t. refl));
    other_files =
        λ id other. ground (arith, removed-files, select-others share_id id w.files other);
  }

-- When the scanner finds a file infected, the scan in the background makes three calls, of which any may
-- fail: the share is left without bytes, without rows of files and with a reason, each unless the call
-- for it failed, and the rows of other shares and of their files are as they were.
pub scan_file_in_background-IsCleared :
    (scanner : Scanner) (faults : RemovalFaults) (share_id : String) (directory : Directory)
    (file_id file_name : String) (bytes : List ℕ) (s : Share) (w : World)
    → scanner.active ≡ true
    → bytes_at w directory (stored file_id) ≡ some bytes
    → scanner.is_infected bytes ≡ some true
    → find_share w share_id ≡ some s
    → IsCleared faults share_id directory
        (reason_for file_name)
        s
        w
        (scan_file_in_background scanner faults share_id directory file_id file_name w)
unfolding scan_file_in_background scan_local_file is_bad_request
scan_file_in_background-IsCleared scanner faults share_id directory file_id file_name bytes s w
      active there infected row =
    let removes : scan_file_in_background scanner faults share_id directory file_id file_name w
        ≡ remove_infected faults directory share_id
            (λ s. record s { is_zip_ready = false; removed_reason = some (reason_for file_name) })
            w =
      ground (arith, active, there, infected) in
    rw removes (remove_infected-IsCleared faults directory share_id (reason_for file_name) s w row)
