-- ===== src/Examples/Uploads.antt =====
-- The theorem on the upload of a whole file at a concrete input.
use i_transfer.Base.{
  ℕ, String, true, false, ◌≡◌, ◌<◌, refl, none, some, List, [], ◌∷◌, arith, All, map,
}
use i_transfer.Desktop.Upload.{UploadItem, upload_file, post_chunk, chunk_count}
use i_transfer.Desktop.Upload.Complete.{IsUploaded, upload_file-IsUploaded}
use i_transfer.Desktop.Prepare.{ShareFile, SelectedFile, rename, replace, prepare_upload_items}
use i_transfer.Desktop.Prepare.Names.{IsPrepared, prepare_upload_items-IsPrepared}
use i_transfer.Desktop.Transfer.{upload_items}
use i_transfer.Desktop.Transfer.Arrives.{Uploads, IsReady}
use i_transfer.Desktop.Transfer.Prepared.{IsScanned, items, prepare_upload_items-IsTransferred}
use i_transfer.Env.{Env}
use i_transfer.Examples.{env_signing, docs, inbox, world}
use i_transfer.File.Upload.Room.{HasRoom}
use i_transfer.File.Upload.{Arrival, bytes_at}
use i_transfer.File.Upload.Progress.{IsOpen}
use i_transfer.Guard.Upload.{rights}
use i_transfer.Share.Token.{owner_claims}
use i_transfer.Scan.{Scanner, RemovalFaults}
use i_transfer.Scan.Harmless.{FindsNothing}
use i_transfer.World.{World, files_of}

abbrev env : Env
env = env_signing (owner_claims docs)

-- Six bytes, which are two chunks of four.
abbrev letter : UploadItem
letter = record {
  file = 1 ∷ 2 ∷ 3 ∷ 4 ∷ 5 ∷ 6 ∷ [];
  upload_name = b'a' ∷ [];
  replace_file_id = none;
}

abbrev arrival : Arrival
arrival = record { bytes = []; fresh_id = "fresh"; is_valid_uuid = λ _. true; available_space = 50 }

inbox-IsOpen : IsOpen env arrival inbox 6 world
unfolding i_transfer.World.find_share i_transfer.World.find_file i_transfer.World.files_of
    i_transfer.World.creator_of i_transfer.World.find_user i_transfer.World.reverse_share_of
    i_transfer.File.Upload.user_storage_usage i_transfer.File.Upload.exceeds_share_size
    i_transfer.File.Upload.exceeds_quota i_transfer.Storage.is_locked i_transfer.Base.find?
    i_transfer.Base.select i_transfer.Base.total i_transfer.Storage.resolve_share_directory
inbox-IsOpen = record {
  found = refl;
  made = refl;
  unlocked = refl;
  not_completed = refl;
  is_new = refl;
  named = refl;
  valid = refl;
  fits_share = refl;
  fits_quota = refl;
}

nothing_yet :
    bytes_at world
      (i_transfer.Storage.resolve_share_directory env inbox)
      (i_transfer.World.tmp_chunk "fresh")
    ≡ none
unfolding bytes_at i_transfer.Base.find?
nothing_yet = refl

two_chunks : chunk_count 6 4 < 3
unfolding chunk_count
two_chunks = omega arith

upload_file-IsUploaded_example :
    IsUploaded env arrival inbox letter world
      (upload_file (post_chunk env arrival (rights inbox true) "inbox") 4 letter 3 world)
upload_file-IsUploaded_example =
    upload_file-IsUploaded env arrival (rights inbox true) inbox letter 3 world (omega arith)
      (omega arith) inbox-IsOpen refl nothing_yet two_chunks

-- A second file of the same name, which has one byte and gets the name "a (2)", and the transfer of
-- both.
abbrev note : UploadItem
note = record {
  file = 7 ∷ [];
  upload_name = b'a' ∷ b' ' ∷ b'(' ∷ b'2' ∷ b')' ∷ [];
  replace_file_id = none;
}

abbrev namesakes : List SelectedFile
namesakes =
    record { name = b'a' ∷ []; bytes = letter.file }
    ∷ record { name = b'a' ∷ []; bytes = 7 ∷ [] }
    ∷ []

abbrev second : Arrival
second = record { bytes = []; fresh_id = "second"; is_valid_uuid = λ _. true; available_space = 50 }

abbrev both : Uploads
both = (arrival, letter) ∷ (second, note) ∷ []

inbox-HasRoom : HasRoom env inbox 7 world
unfolding i_transfer.World.find_share i_transfer.World.files_of i_transfer.World.creator_of
    i_transfer.World.find_user i_transfer.World.reverse_share_of
    i_transfer.File.Upload.user_storage_usage i_transfer.File.Upload.exceeds_share_size
    i_transfer.File.Upload.exceeds_quota i_transfer.Storage.is_locked i_transfer.Base.find?
    i_transfer.Base.select i_transfer.Base.total i_transfer.Storage.resolve_share_directory
inbox-HasRoom = record {
  found = refl;
  made = refl;
  unlocked = refl;
  not_completed = refl;
  fits_share = refl;
  fits_quota = refl;
}

both_prepared : items both ≡ prepare_upload_items (λ conflicts. rename) [] namesakes
unfolding prepare_upload_items i_transfer.Desktop.Prepare.conflict_names i_transfer.Base.select
    i_transfer.Desktop.Prepare.existing_by_name i_transfer.File.Name.name_eq i_transfer.Base.count
    i_transfer.Desktop.Prepare.create_available_upload_name
both_prepared = refl

no_names : [] ≡ map (λ f. f.name) (files_of world "inbox")
unfolding i_transfer.World.files_of i_transfer.Base.select
no_names = refl

both-IsReady : All (IsReady env inbox 3 world) both
unfolding bytes_at chunk_count i_transfer.World.find_file i_transfer.Base.find?
both-IsReady = (
  (
    record { named = refl; valid = refl; is_new = refl; untouched = refl; space = omega arith },
    refl,
    omega arith,
  ),
  (
    (
      record { named = refl; valid = refl; is_new = refl; untouched = refl; space = omega arith },
      refl,
      omega arith,
    ),
    tt,
  ),
)

-- A scanner that does not run.
abbrev scanner : Scanner
scanner = record { active = true; required = true; is_infected = λ bytes. some false }

abbrev removal : RemovalFaults
removal = record { left = none; deletes = true; updates = true }

finds_nothing : FindsNothing scanner
finds_nothing bytes is = absurd (cc)

prepare_upload_items-IsTransferred_example :
    IsScanned env inbox scanner removal
      (λ name. "file")
      both
      []
      world
      (upload_items (λ a. post_chunk env a (rights inbox true) "inbox") 4 3 both [] world)
prepare_upload_items-IsTransferred_example =
    prepare_upload_items-IsTransferred env inbox 3 (rights inbox true) (λ conflicts. rename) []
      namesakes both [] world scanner removal (λ name. "file") both_prepared no_names (omega arith)
      inbox-HasRoom (((refl, refl), tt), (tt, tt)) both-IsReady finds_nothing

-- A file of the share, and two chosen files, one of its name.
abbrev shared : ShareFile
shared = record { id = "old"; name = b'a' ∷ [] }

abbrev chosen : List SelectedFile
chosen =
    record { name = b'a' ∷ []; bytes = 1 ∷ [] } ∷ record { name = b'b' ∷ []; bytes = 2 ∷ [] } ∷ []

-- The second name is "a (2)", where the user asks for other names.
renamed_one :
    prepare_upload_items (λ conflicts. rename) (shared ∷ []) chosen
    ≡ record {
      file = 1 ∷ [];
      upload_name = b'a' ∷ b' ' ∷ b'(' ∷ b'2' ∷ b')' ∷ [];
      replace_file_id = none;
    }
      ∷ record { file = 2 ∷ []; upload_name = b'b' ∷ []; replace_file_id = none }
      ∷ []
unfolding prepare_upload_items i_transfer.Desktop.Prepare.conflict_names i_transfer.Base.select
    i_transfer.Desktop.Prepare.existing_by_name i_transfer.File.Name.name_eq i_transfer.Base.count
    i_transfer.Desktop.Prepare.create_available_upload_name
renamed_one = refl

prepare_upload_items-IsPrepared_example :
    IsPrepared (shared ∷ []) (prepare_upload_items (λ conflicts. replace) (shared ∷ []) chosen)
prepare_upload_items-IsPrepared_example =
    prepare_upload_items-IsPrepared (λ conflicts. replace) (shared ∷ []) chosen
