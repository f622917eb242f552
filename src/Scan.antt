-- ===== src/Scan.antt =====
-- The virus scan: `check`, `checkAndRemove` and `scanLocalFile` of
-- backend/src/clamscan/clamscan.service.ts, and `scanFileInBackground` and `updateFileScanStatus` of
-- backend/src/file/local.service.ts. The scanner, behind package clamscan, is a record of functions.
pub mod Malware
pub mod Harmless
use i_transfer.Base.{
  ℕ, String, Bool, true, false, not, ◌&&◌, Option, none, some, List, [], ◌∷◌, ◌==◌, delete_where,
  is_some, if◌then◌else◌,
}
use i_transfer.Env.{Env}
use i_transfer.File.Upload.{bytes_at}
use i_transfer.Storage.{remove_directory, resolve_share_directory, same_directory}
use i_transfer.Text.{concat}
use i_transfer.World.{
  World, Share, File, PendingScan, Directory, Blob, Entry, stored, tmp_chunk, App, Exception,
  Outcome, ok, throws, pure, gets, modify, ◌>>=◌, ◌>>◌, bad_request, service_unavailable,
  ScanStatus, clean, unscanned, error, find_file, find_share, update_file, update_share,
}

-- Whether ClamAV runs, the setting `CLAMAV_REQUIRED`, and the verdict on a file's bytes, with `none` for
-- an exception.
pub record Scanner : Type 0 where
  pub active : Bool
  pub required : Bool
  pub is_infected : List ℕ → Option Bool

-- The verdict on a file that may be missing, which is an exception.
abbrev pub verdict : Scanner → Option (List ℕ) → Option Bool
verdict scanner none = none
verdict scanner (some bytes) = scanner.is_infected bytes

skipped_scan : Scanner → String → Outcome ScanStatus
skipped_scan scanner message =
    if scanner.required then throws (service_unavailable message) else ok unscanned

-- `scanLocalFile`
unfoldable pub scan_local_file : Scanner → Option (List ℕ) → String → Outcome ScanStatus
unfolding skipped_scan
scan_local_file scanner bytes file_name =
    if not scanner.active
    then skipped_scan scanner "ClamAV is not active"
    else elim (verdict scanner bytes) [
      | none ↦ skipped_scan scanner "ClamAV scan failed"
      | some infected ↦
          if infected
          then throws (bad_request (concat ("Malware detected in " ∷ file_name ∷ [])))
          else ok clean
    ]

-- What a step leaves, where its exception is only logged.
abbrev pub logged : {A : Type 0} → App A → World → World
logged m w = (m w).1

-- `updateFileScanStatus`
update_file_scan_status : String → ScanStatus → World → World
update_file_scan_status file_id status =
    logged (update_file file_id (λ f. record f { scan_status = status }))

-- How the three calls of a removal end: `fs.rm`, which may fail and leave some of the files,
-- `file.deleteMany` and `share.update`.
pub record RemovalFaults : Type 0 where
  pub left : Option (Blob → Bool)
  pub deletes : Bool
  pub updates : Bool

unfoldable pub remove_or_leave : Option (Blob → Bool) → Directory → World → World
unfolding remove_directory
remove_or_leave none directory w = (remove_directory directory w).1
remove_or_leave (some stays) directory w = record w {
  disk = delete_where (λ b. same_directory b.directory directory && not (stays b)) w.disk;
}

-- The directory, the rows of the files, and the mark on the share, where a call that fails is only
-- logged.
unfoldable pub remove_infected :
    RemovalFaults → Directory → String → (Share → Share) → World → World
unfolding remove_or_leave
remove_infected faults directory share_id mark w =
    let w1 : World = remove_or_leave faults.left directory w in
    let w2 : World =
      if faults.deletes
      then record w1 { files = delete_where (λ f. f.share_id == share_id) w1.files }
      else w1 in
    if faults.updates then logged (update_share share_id mark) w2 else w2

-- The same calls, where one that fails ends the removal.
unfoldable pub remove_or_stop : RemovalFaults → Directory → String → (Share → Share) → World → World
unfolding remove_or_leave
remove_or_stop faults directory share_id mark w =
    let w1 : World = remove_or_leave faults.left directory w in
    let w2 : World = record w1 { files = delete_where (λ f. f.share_id == share_id) w1.files } in
    if is_some faults.left
    then w1
    else if not faults.deletes
    then w1
    else if faults.updates
    then logged (update_share share_id mark) w2
    else w2

abbrev pub reason_for : String → String
reason_for file_name =
    concat ("Your share got removed because the file " ∷ file_name ∷ " is malicious." ∷ [])

is_bad_request : Exception → Bool
is_bad_request (bad_request message) = true
is_bad_request _ = false

-- `scanFileInBackground`
unfoldable pub scan_file_in_background :
    Scanner
    → RemovalFaults
    → (share_id : String) → Directory
    → (file_id file_name : String) → World
    → World
unfolding update_file_scan_status is_bad_request remove_infected
scan_file_in_background scanner faults share_id directory file_id file_name w =
    elim (scan_local_file scanner (bytes_at w directory (stored file_id)) file_name) [
      | ok status ↦ update_file_scan_status file_id status w
      | throws e ↦
          if is_bad_request e
          then remove_infected faults directory share_id
              (λ s. record s { is_zip_ready = false; removed_reason = some (reason_for file_name) })
              w
          else update_file_scan_status file_id error w
    ]

-- A scan that was started, and the end of all that were; `text` is the file's name as a string.
unfoldable pub run_scan :
    Scanner → RemovalFaults → (text : List ℕ → String) → PendingScan → World → World
unfolding scan_file_in_background
run_scan scanner faults text p w =
    scan_file_in_background scanner faults p.share_id p.directory p.file_id (text p.file_name) w

unfoldable pub run_scans :
    Scanner → RemovalFaults → (text : List ℕ → String) → List PendingScan → World → World
unfolding run_scan
run_scans scanner faults text [] w = w
run_scans scanner faults text (p ∷ scans) w =
    run_scan scanner faults text p (run_scans scanner faults text scans w)

unfoldable pub run_background : Scanner → RemovalFaults → (text : List ℕ → String) → World → World
unfolding run_scans
run_background scanner faults text w =
    run_scans scanner faults text w.pending_scans (record w { pending_scans = [] })

-- A file of the directory that the scanner finds infected and that has a row.
infected_id : Scanner → World → Directory → Blob → Option String
infected_id scanner w directory b = elim b.entry [
  | tmp_chunk id ↦ none
  | stored id ↦
      if same_directory b.directory directory && is_some (find_file w id)
      then elim (scanner.is_infected b.bytes) [
        | none ↦ none
        | some infected ↦ if infected then some id else none
      ]
      else none
]

infected_ids : Scanner → World → Directory → List Blob → List String
infected_ids scanner w directory [] = []
infected_ids scanner w directory (b ∷ disk) =
    let rest = infected_ids scanner w directory disk in
    elim (infected_id scanner w directory b) [ none ↦ rest | some id ↦ id ∷ rest ]

-- `check`, by the ids of the files.
unfoldable pub check : Env → Scanner → String → World → List String
unfolding infected_ids infected_id
check env scanner share_id w = if not scanner.active then [] else elim (find_share w share_id) [
  | none ↦ []
  | some s ↦ infected_ids scanner w (resolve_share_directory env s) w.disk
]

-- `checkAndRemove`; `reason` is the text with the names of the files.
unfoldable pub check_and_remove :
    Env → Scanner → RemovalFaults → (reason : String) → String → World → World
unfolding remove_or_stop
check_and_remove env scanner faults reason share_id w = elim (check env scanner share_id w) [
  | [] ↦ w
  | id ∷ ids ↦ elim (find_share w share_id) [
    | none ↦ w
    | some s ↦
        remove_or_stop faults (resolve_share_directory env s) share_id
          (λ s. record s { removed_reason = some reason }) w
  ]
]
