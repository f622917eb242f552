-- ===== src/Examples/Scans.antt =====
-- The theorem on the virus scan at a concrete input.
use i_transfer.Base.{ℕ, String, Bool, true, false, none, ◌≡◌, refl, some, List, [], ◌∷◌}
use i_transfer.Examples.{world, docs}
use i_transfer.File.Upload.{bytes_at}
use i_transfer.Scan.{Scanner, RemovalFaults, reason_for, scan_file_in_background}
use i_transfer.Scan.Malware.{IsCleared, scan_file_in_background-IsCleared}
use i_transfer.World.{World, Directory, stored, pending, find_share}

abbrev scanner : Scanner
scanner = record { active = true; required = true; is_infected = λ bytes. some true }

-- The rows of the files cannot be deleted.
abbrev faults : RemovalFaults
faults = record { left = none; deletes = false; updates = true }

abbrev directory : Directory
directory = record { root = "/data"; share_id = "docs" }

abbrev uploaded : World
uploaded = record world {
  files =
      record { id = "f"; name = b'f' ∷ []; size = 3; scan_status = pending; share_id = "docs" }
      ∷ [];
  disk = record { directory = directory; entry = stored "f"; bytes = 1 ∷ 2 ∷ 3 ∷ [] } ∷ [];
}

there : bytes_at uploaded directory (stored "f") ≡ some (1 ∷ 2 ∷ 3 ∷ [])
unfolding bytes_at i_transfer.Base.find?
there = refl

docs_found : find_share uploaded "docs" ≡ some docs
unfolding find_share i_transfer.Base.find?
docs_found = refl

scan_file_in_background-IsCleared_example :
    IsCleared faults "docs" directory
      (reason_for "f")
      docs
      uploaded
      (scan_file_in_background scanner faults "docs" directory "f" "f" uploaded)
scan_file_in_background-IsCleared_example =
    scan_file_in_background-IsCleared scanner faults "docs" directory "f" "f" (1 ∷ 2 ∷ 3 ∷ []) docs
      uploaded refl there refl docs_found
