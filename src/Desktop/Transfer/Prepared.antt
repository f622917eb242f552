-- ===== src/Desktop/Transfer/Prepared.antt =====
-- The files that were prepared together arrive together: `prepareUploadItems` and the loop of
-- `uploadFiles` of desktop/src/main.ts, against the backend.
use mathlib.Core.Path.{transport}
use i_transfer.Base.{
  ap, ◌∙◌, String, Option, ℕ, ◌<◌, ◌≡◌, sym, inl, inr, false, List, [], ◌∷◌, map, All, arith,
}
use i_transfer.Desktop.Prepare.{
  ShareFile, SelectedFile, UploadConflictResolution, prepare_upload_items,
}
use i_transfer.Desktop.Prepare.Names.{
  names, HasDistinctNames, IsPlaced, IsPrepared, prepare_upload_items-IsPrepared, name_eq_flip,
}
use i_transfer.Desktop.Transfer.{upload_items}
use i_transfer.Desktop.Transfer.Arrives.{
  Uploads, total_size, HasDistinctIds, HasArrived, HasFreeNames, IsReady, IsTransferred,
  upload_items-IsTransferred,
}
use i_transfer.Desktop.Upload.{UploadItem, SavedFile, post_chunk}
use i_transfer.Env.{Env}
use i_transfer.File.Name.{has}
use i_transfer.File.Upload.{Arrival, bytes_at}
use i_transfer.File.Upload.Room.{HasRoom}
use i_transfer.Guard.Upload.{UploadRights}
use i_transfer.Migration.Disk.Reads.{at}
use i_transfer.Scan.{Scanner, RemovalFaults, run_background}
use i_transfer.Scan.Harmless.{FindsNothing, IsRescanned, run_background-IsRescanned}
use i_transfer.Storage.{resolve_share_directory}
use i_transfer.World.{World, Share, Outcome, stored, files_of}

abbrev pub items : Uploads → List UploadItem
items uploads = map (λ (u : Arrival × UploadItem). u.1) uploads

-- The names of these files are not in use.
abbrev AreFree : List (List ℕ) → Uploads → Type 0
AreFree used uploads = All (λ u. has used u.1.upload_name ≡ false) uploads

AreFree-cons :
    (name : List ℕ) (used : List (List ℕ)) (uploads : Uploads)
    → has (names (items uploads)) name ≡ false
    → AreFree used uploads
    → AreFree (name ∷ used) uploads
unfolding has
AreFree-cons name used [] other free = tt
AreFree-cons name used ((a, i) ∷ uploads) other (here, free) = (
  ground (arith, name_eq_flip i.upload_name name),
  AreFree-cons name used uploads (ground arith) free,
)

HasDistinctNames-HasFreeNames :
    (used : List (List ℕ)) (uploads : Uploads)
    → AreFree used uploads
    → HasDistinctNames (items uploads)
    → HasFreeNames used uploads
HasDistinctNames-HasFreeNames used [] free distinct = tt
HasDistinctNames-HasFreeNames used ((a, i) ∷ uploads) (here, free) (other, distinct) = (
  here,
  HasDistinctNames-HasFreeNames (i.upload_name ∷ used) uploads
      (AreFree-cons i.upload_name used uploads other free) distinct,
)

-- An item that replaces no file has a name of its own.
IsPlaced-AreFree :
    (env : Env) (s : Share) (fuel : ℕ) (w : World) (share_files : List ShareFile)
    (uploads : Uploads)
    → All (IsPlaced share_files) (items uploads)
    → All (IsReady env s fuel w) uploads
    → AreFree (map (λ f. f.name) share_files) uploads
IsPlaced-AreFree env s fuel w share_files [] placed ready = tt
IsPlaced-AreFree env s fuel w share_files ((a, i) ∷ uploads) (inl free, placed) (here, ready) =
    (free, IsPlaced-AreFree env s fuel w share_files uploads placed ready)
IsPlaced-AreFree env s fuel w share_files ((a, i) ∷ uploads) (inr (f, found, replaced), placed)
      ((fresh, is_new, enough), ready) =
    absurd (cc)

-- The files stay where a scan finds nothing.
HasArrived-IsRescanned :
    (env : Env) (s : Share) (v v' : World) (u : Arrival × UploadItem)
    → IsRescanned v v'
    → HasArrived env s v u
    → HasArrived env s v' u
unfolding bytes_at
HasArrived-IsRescanned env s v v' (a, item) same (bytes, f, there, name, size, share) =
    let (status, there') = same.rows_are a.fresh_id f there in
    (
      ap (λ disk. at disk (resolve_share_directory env s) (stored a.fresh_id)) same.disk_is ∙ bytes,
      record f { scan_status = status },
      there',
      name,
      size,
      share,
    )

All-HasArrived :
    (env : Env) (s : Share) (v v' : World) (uploads : Uploads)
    → IsRescanned v v'
    → All (HasArrived env s v) uploads
    → All (HasArrived env s v') uploads
All-HasArrived env s v v' [] same all = tt
All-HasArrived env s v v' (u ∷ uploads) same (here, all) =
    (HasArrived-IsRescanned env s v v' u same here, All-HasArrived env s v v' uploads same all)

-- A transfer, and its files after the scans in the background.
pub record IsScanned (env : Env) (s : Share) (scanner : Scanner) (faults : RemovalFaults)
    (text : List ℕ → String) (uploads : Uploads) (files : List SavedFile) (w : World)
    (r : Outcome (Option (List SavedFile)) × World) : Type 0 where
  pub transferred : IsTransferred env s uploads files w r
  pub after_scans :
      All (HasArrived env s (run_background scanner faults text transferred.state)) uploads

-- Let an open share, whose directory is there, have room for all the files that were prepared, where the
-- window shows the names of the share's files, none of the files replaces another and no two of them
-- get one id, and let the scans in the background run after the last of the uploads. Then, whatever was
-- chosen and however a conflict of names was resolved, the upload of the files returns after no more
-- requests than they have chunks: the window then shows its files and the new ones, each under the
-- name that was prepared for it, each new file is on the disk with the bytes that were sent, its row
-- has its name and its size, its scan waits, and every file with another id is as it was. When the
-- waiting scans have run, with a scanner that finds no infection, each new file is still there, with
-- its bytes, its name and its size.
pub prepare_upload_items-IsTransferred :
    (env : Env) (s : Share) (fuel : ℕ) (rights : UploadRights)
    (ask : List (List ℕ) → UploadConflictResolution) (share_files : List ShareFile)
    (chosen : List SelectedFile) (uploads : Uploads) (files : List SavedFile) (w : World)
    (scanner : Scanner) (faults : RemovalFaults) (text : List ℕ → String)
    → items uploads ≡ prepare_upload_items ask share_files chosen
    → map (λ f. f.name) share_files ≡ map (λ f. f.name) (files_of w s.id)
    → 0 < env.settings.chunk_size
    → HasRoom env s (total_size uploads) w
    → HasDistinctIds uploads
    → All (IsReady env s fuel w) uploads
    → FindsNothing scanner
    → IsScanned env s scanner faults text uploads files w (
        upload_items
          (λ a. post_chunk env a rights s.id)
          env.settings.chunk_size
          fuel
          uploads
          files
          w)
prepare_upload_items-IsTransferred env s fuel rights ask share_files chosen uploads files w scanner
      faults text prepared shown positive room distinct ready nothing =
    let p : IsPrepared share_files (items uploads) =
      transport (λ i. IsPrepared share_files (sym prepared i))
        (prepare_upload_items-IsPrepared ask share_files chosen) in
    let done =
      upload_items-IsTransferred env s fuel rights uploads files w positive room distinct
        (transport (λ i. HasFreeNames (shown i) uploads)
          (HasDistinctNames-HasFreeNames _ uploads
            (IsPlaced-AreFree env s fuel w share_files uploads p.placed ready) p.distinct))
        ready in
    record {
      transferred = done;
      after_scans =
          All-HasArrived env s done.state _ uploads
            (run_background-IsRescanned scanner faults text done.state nothing) done.arrived;
    }
