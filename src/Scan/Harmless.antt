-- ===== src/Scan/Harmless.antt =====
-- What scans in the background leave where they find nothing: the files' bytes, and their rows but for
-- the state of the scan.
use i_transfer.Base.{
  ◌≡◌, refl, ap, ◌∙◌, ◌⊎◌, inl, inr, ℕ, String, Bool, true, false, Option, none, some, List, [],
  ◌∷◌, ◌==◌, find?, find?-update_where, if◌then◌else◌, update_where, Bool-cases,
}
use mathlib.Core.Option
use i_transfer.File.Upload.{bytes_at}
use i_transfer.Scan.{
  Scanner, RemovalFaults, verdict, skipped_scan, scan_local_file, scan_file_in_background,
  update_file_scan_status, is_bad_request, run_scan, run_scans, run_background,
}
use i_transfer.World.{
  World, File, PendingScan, ScanStatus, Outcome, ok, throws, service_unavailable, find_file,
  update_file, stored, error, unscanned, clean, record_not_found,
}

-- The files' bytes are the same, and a row that was there is there, with another state of the scan at
-- most.
pub record IsRescanned (w v : World) : Type 0 where
  pub disk_is : v.disk ≡ w.disk
  pub rows_are :
      (id : String) (f : File)
      → find_file w id ≡ some f
      → (status : ScanStatus) × (find_file v id ≡ some (record f { scan_status = status }))

-- No file is found infected.
abbrev pub FindsNothing : Scanner → Type 0
FindsNothing scanner = (bytes : List ℕ) → ¬ (scanner.is_infected bytes ≡ some true)

IsRescanned-trans : (a b c : World) → IsRescanned a b → IsRescanned b c → IsRescanned a c
IsRescanned-trans a b c f g = record {
  disk_is = g.disk_is ∙ f.disk_is;
  rows_are = λ id row there.
      let (status, there') = f.rows_are id row there in
      g.rows_are id (record row { scan_status = status }) there';
}

update_file_scan_status-IsRescanned :
    (file_id : String) (status : ScanStatus) (w : World)
    → IsRescanned w (update_file_scan_status file_id status w)
unfolding update_file_scan_status update_file find_file
update_file_scan_status-IsRescanned file_id status w = go (find? (λ f. f.id == file_id) w.files)
  where
    mark : File → File
    mark f = record f { scan_status = status }

    after : World
    after = record w { files = update_where (λ f. f.id == file_id) mark w.files }

    marked :
        (id : String) (f : File)
        → find? (λ f. f.id == id) w.files ≡ some f
        → (status' : ScanStatus) × (find? (λ f. f.id == id) after.files
            ≡ some (record f { scan_status = status' }))
    marked id f there =
        let moved =
          find?-update_where (λ f. f.id == id) (λ f. f.id == file_id) mark w.files (λ x. refl) in
        elim (Bool-cases (f.id == file_id)) [
          | inl hit ↦ (
            status,
            moved
                ∙ ap (Option.map (λ x. if x.id == file_id then mark x else x)) there
                ∙ rw hit refl,
          )
          | inr miss ↦ (
            f.scan_status,
            moved
                ∙ ap (Option.map (λ x. if x.id == file_id then mark x else x)) there
                ∙ rw miss refl,
          )
        ]

    go :
        (o : Option File)
        → IsRescanned w (
            (elim o as (λ _. Outcome File × World) [
              | none ↦ (throws record_not_found, w)
              | some x ↦ (ok (mark x), after)
            ]).1)
    go none = record { disk_is = refl; rows_are = λ id f there. (f.scan_status, there) }
    go (some x) = record { disk_is = refl; rows_are = marked }

skipped_scan_cases :
    (scanner : Scanner) (message : String)
    → ((status : ScanStatus) × (skipped_scan scanner message ≡ ok status))
      ⊎ (skipped_scan scanner message ≡ throws (service_unavailable message))
unfolding skipped_scan
skipped_scan_cases scanner message = elim (Bool-cases scanner.required) [
  | inl needed ↦ inr (rw (needed, skipped_scan) refl)
  | inr spared ↦ inl (unscanned, rw (spared, skipped_scan) refl)
]

-- A scan that finds nothing answers a state, or fails without a verdict.
scan_local_file_cases :
    (scanner : Scanner) (bytes : Option (List ℕ)) (name : String)
    → FindsNothing scanner
    → ((status : ScanStatus) × (scan_local_file scanner bytes name ≡ ok status))
      ⊎ ((message : String) × (scan_local_file scanner bytes name
            ≡ throws (service_unavailable message)))
unfolding scan_local_file
scan_local_file_cases scanner bytes name nothing = elim (Bool-cases scanner.active) [
  | inr off ↦
      rw (off, scan_local_file) (skipped (skipped_scan_cases scanner "ClamAV is not active"))
  | inl on ↦ go (verdict scanner bytes) refl on
]
  where
    skipped :
        {o : Outcome ScanStatus} {m : String}
        → ((status : ScanStatus) × (o ≡ ok status)) ⊎ (o ≡ throws (service_unavailable m))
        → ((status : ScanStatus) × (o ≡ ok status))
          ⊎ ((message : String) × (o ≡ throws (service_unavailable message)))
    skipped (inl answered) = inl answered
    skipped {m = m} (inr failed) = inr (m, failed)

    not_infected : (bytes : Option (List ℕ)) → ¬ (verdict scanner bytes ≡ some true)
    not_infected none = λ is. absurd (cc)
    not_infected (some b) = nothing b

    go :
        (o : Option Bool)
        → verdict scanner bytes ≡ o
        → scanner.active ≡ true
        → ((status : ScanStatus) × (scan_local_file scanner bytes name ≡ ok status))
          ⊎ ((message : String) × (scan_local_file scanner bytes name
                ≡ throws (service_unavailable message)))
    go none is on =
        rw (on, is, scan_local_file) (skipped (skipped_scan_cases scanner "ClamAV scan failed"))
    go (some true) is on = absurd (not_infected bytes is)
    go (some false) is on = inl (clean, rw (on, is, scan_local_file) refl)

pub run_scan-IsRescanned :
    (scanner : Scanner) (faults : RemovalFaults) (text : List ℕ → String) (p : PendingScan)
    (w : World)
    → FindsNothing scanner
    → IsRescanned w (run_scan scanner faults text p w)
unfolding run_scan scan_file_in_background is_bad_request
run_scan-IsRescanned scanner faults text p w nothing =
    elim (scan_local_file_cases scanner (bytes_at w p.directory (stored p.file_id))
      (text p.file_name) nothing) [
        | inl (status, is) ↦
            rw (is, scan_file_in_background)
              (update_file_scan_status-IsRescanned p.file_id status w)
        | inr (message, is) ↦
            rw (is, scan_file_in_background) (update_file_scan_status-IsRescanned p.file_id error w)
      ]

run_scans-IsRescanned :
    (scanner : Scanner) (faults : RemovalFaults) (text : List ℕ → String) (scans : List PendingScan)
    (w : World)
    → FindsNothing scanner
    → IsRescanned w (run_scans scanner faults text scans w)
unfolding run_scans
run_scans-IsRescanned scanner faults text [] w nothing = record {
  disk_is = refl;
  rows_are = λ id f there. (f.scan_status, there);
}
run_scans-IsRescanned scanner faults text (p ∷ scans) w nothing =
    IsRescanned-trans w _ _ (run_scans-IsRescanned scanner faults text scans w nothing)
      (run_scan-IsRescanned scanner faults text p _ nothing)

pub run_background-IsRescanned :
    (scanner : Scanner) (faults : RemovalFaults) (text : List ℕ → String) (w : World)
    → FindsNothing scanner
    → IsRescanned w (run_background scanner faults text w)
unfolding run_background find_file
run_background-IsRescanned scanner faults text w nothing =
    let rest =
      run_scans-IsRescanned scanner faults text w.pending_scans (record w { pending_scans = [] })
        nothing in
    record { disk_is = rest.disk_is; rows_are = rest.rows_are }
