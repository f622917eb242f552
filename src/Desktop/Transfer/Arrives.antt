-- ===== src/Desktop/Transfer/Arrives.antt =====
-- All files of a transfer arrive, under the names that were prepared for them.
use mathlib.Core.List.{append_assoc, append-nil}
use mathlib.Core.Path.{transport}
use i_transfer.Base.{
  ℕ, ◌+◌, ◌<◌, ◌≡◌, refl, ap, sym, ◌∙◌, String, false, ◌==◌, eq_refl, Option, none, some, List, [],
  ◌∷◌, ◌++◌, map, length, select, truthy, All, delete_where, find?, same,
}
use i_transfer.Desktop.Transfer.{with_saved, upload_items}
use i_transfer.Desktop.Upload.{UploadItem, SavedFile, upload_file, post_chunk, chunk_count}
use i_transfer.Desktop.Upload.Complete.{IsUploaded, upload_file-IsUploaded}
use i_transfer.Env.{Env}
use i_transfer.File.Name.{has, create_available_file_name}
use i_transfer.File.Upload.{Arrival, bytes_at}
use i_transfer.File.Upload.Room.{
  HasRoom, IsFresh, HasRoom-IsOpen, IsFresh-IsStored, HasRoom-IsStored,
}
use i_transfer.File.Upload.Stored.{IsStored, new_row}
use i_transfer.Guard.Upload.{UploadRights}
use i_transfer.Migration.Disk.Reads.{same_directory_refl}
use i_transfer.Storage.{resolve_share_directory}
use i_transfer.World.{
  World, PendingScan, Share, File, Outcome, ok, files_of, stored, find_file, resume-to,
}

abbrev pub Uploads : Type 0
Uploads = List (Arrival × UploadItem)

-- The bytes of all the files.
abbrev pub total_size : Uploads → ℕ
total_size [] = 0
total_size ((a, item) ∷ rest) = length item.file + total_size rest

-- This id is none of theirs.
abbrev pub IsApart : String → Uploads → Type 0
IsApart id uploads =
    All (λ u. ((id == u.0.fresh_id) ≡ false) × ((u.0.fresh_id == id) ≡ false)) uploads

-- No two files get one id.
abbrev pub HasDistinctIds : Uploads → Type 0
HasDistinctIds [] = Unit
HasDistinctIds ((a, item) ∷ rest) = IsApart a.fresh_id rest × HasDistinctIds rest

-- Each name is free when its turn comes.
abbrev pub HasFreeNames : List (List ℕ) → Uploads → Type 0
HasFreeNames used [] = Unit
HasFreeNames used ((a, item) ∷ rest) =
    (has used item.upload_name ≡ false) × HasFreeNames (item.upload_name ∷ used) rest

-- The files that the window shows then.
abbrev pub saved_files : Uploads → List SavedFile
saved_files [] = []
saved_files ((a, item) ∷ rest) =
    record { id = some a.fresh_id; name = item.upload_name } ∷ saved_files rest

create_available_file_name-free :
    (name : List ℕ) (used : List (List ℕ))
    → has used name ≡ false
    → create_available_file_name name used ≡ name
unfolding create_available_file_name
create_available_file_name-free name used free = rw (free, create_available_file_name) refl

-- Without a replacement the window keeps its files.
delete_where-none : (files : List SavedFile) → delete_where (λ f. same f.id none) files ≡ files
unfolding delete_where
delete_where-none [] = refl
delete_where-none (f ∷ files) = rw (same-none f.id) (ap (◌∷◌ f) (delete_where-none files))
  where
    same-none : (id : Option String) → same id none ≡ false
    same-none none = refl
    same-none (some id) = refl

with_saved-new :
    (files : List SavedFile) (item : UploadItem) (saved : SavedFile)
    → item.replace_file_id ≡ none
    → with_saved files item saved ≡ files ++ (saved ∷ [])
unfolding with_saved
with_saved-new files item saved is_new =
    ap (λ id. delete_where (λ f. same f.id id) files ++ (saved ∷ [])) is_new
    ∙ ap (λ x. x ++ (saved ∷ [])) (delete_where-none files)

module _ (env : Env) (s : Share) where
  -- A file of the transfer, new and ready to be sent.
  abbrev pub IsReady : (fuel : ℕ) → World → Arrival × UploadItem → Type 0
  IsReady fuel w (a, item) =
      IsFresh env a s w
      × (item.replace_file_id ≡ none)
      × (chunk_count (length item.file) env.settings.chunk_size < fuel)

  -- The file is there, with its bytes, its name and its size.
  abbrev pub HasArrived : World → Arrival × UploadItem → Type 0
  HasArrived v (a, item) =
      (bytes_at v (resolve_share_directory env s) (stored a.fresh_id) ≡ some item.file)
      × (f : File) × (find_file v a.fresh_id ≡ some f)
      × (f.name ≡ item.upload_name)
      × (f.size ≡ length item.file)
      × (f.share_id ≡ s.id)

  -- The scans that the files wait for, before those that waited already.
  abbrev pub scans_of : Uploads → List PendingScan → List PendingScan
  scans_of [] scans = scans
  scans_of ((a, item) ∷ rest) scans = scans_of rest (
      record {
        share_id = s.id;
        directory = resolve_share_directory env s;
        file_id = a.fresh_id;
        file_name = item.upload_name;
      }
      ∷ scans)

  -- The transfer returned: all its files have arrived, and what has another id is as it was.
  pub record IsTransferred (uploads : Uploads) (files : List SavedFile) (w : World)
      (r : Outcome (Option (List SavedFile)) × World) : Type 0 where
    pub state : World
    pub returned : r ≡ (ok (some (files ++ saved_files uploads)), state)
    pub arrived : All (HasArrived state) uploads
    pub scans_are : state.pending_scans ≡ scans_of uploads w.pending_scans
    pub others :
        (id : String)
        → IsApart id uploads
        → (bytes_at state (resolve_share_directory env s) (stored id)
            ≡ bytes_at w (resolve_share_directory env s) (stored id))
          × (find_file state id ≡ find_file w id)

  -- What one stored file means for the rest of the transfer.
  module _ (a : Arrival) (item : UploadItem) (w v : World)
      (is_stored : IsStored env a s item.upload_name item.file w v) where
    other-kept :
        (id : String)
        → (id == a.fresh_id) ≡ false
        → (a.fresh_id == id) ≡ false
        → (bytes_at v (resolve_share_directory env s) (stored id)
            ≡ bytes_at w (resolve_share_directory env s) (stored id))
          × (find_file v id ≡ find_file w id)
    unfolding find_file find?
    other-kept id apart apart' = (
      is_stored.others _ _ (rw (same_directory_refl (resolve_share_directory env s)) refl)
          (rw (same_directory_refl (resolve_share_directory env s), apart) refl),
      ap (find? (λ f. f.id == id)) is_stored.row_is ∙ rw apart' refl,
    )

    names_are :
        map (λ f. f.name) (files_of v s.id)
        ≡ create_available_file_name item.upload_name (map (λ f. f.name) (files_of w s.id))
          ∷ map (λ f. f.name) (files_of w s.id)
    unfolding files_of select
    names_are =
        ap (λ files. map (λ f. f.name) (select (λ f. f.share_id == s.id) files)) is_stored.row_is
        ∙ rw (eq_refl s.id) refl

    row_found :
        find_file v a.fresh_id ≡ some (new_row a s item.upload_name w.files (length item.file))
    unfolding find_file find?
    row_found = ap (find? (λ f. f.id == a.fresh_id)) is_stored.row_is ∙ rw (eq_refl a.fresh_id) refl

    later-IsReady :
        (fuel : ℕ) (rest : Uploads)
        → IsApart a.fresh_id rest
        → All (IsReady fuel w) rest
        → All (IsReady fuel v) rest
    later-IsReady fuel [] apart ready = tt
    later-IsReady fuel ((b, i) ∷ rest) ((one, other), apart) ((fresh, is_new, enough), ready) = (
      (
        IsFresh-IsStored env a s item.upload_name item.file w v is_stored b one other fresh,
        is_new,
        enough,
      ),
      later-IsReady fuel rest apart ready,
    )

  module _ (fuel : ℕ) (rights : UploadRights) (positive : 0 < env.settings.chunk_size) where
    abbrev transfer : Uploads → List SavedFile → World → Outcome (Option (List SavedFile)) × World
    transfer = upload_items (λ a. post_chunk env a rights s.id) env.settings.chunk_size fuel

    -- One file, and the transfer of the others from the state that it leaves.
    module _ (a : Arrival) (item : UploadItem) (rest : Uploads) (files : List SavedFile) (w : World)
        (free : has (map (λ f. f.name) (files_of w s.id)) item.upload_name ≡ false)
        (is_new : item.replace_file_id ≡ none)
        (up : IsUploaded env a s item w
          (upload_file (post_chunk env a rights s.id) env.settings.chunk_size item fuel w)) where
      abbrev saved : SavedFile
      saved = record { id = some a.fresh_id; name = item.upload_name }

      name_is :
          create_available_file_name item.upload_name (map (λ f. f.name) (files_of w s.id))
          ≡ item.upload_name
      name_is = create_available_file_name-free item.upload_name _ free

      upload_items-first :
          transfer ((a, item) ∷ rest) files w ≡ transfer rest (files ++ (saved ∷ [])) up.state
      unfolding upload_items
      upload_items-first = resume-to _ _ _ up.state up.returned (
          ap (λ x. transfer rest x up.state)
            (with_saved-new files item _ is_new
              ∙ ap (λ name. files ++ (record { id = some a.fresh_id; name = name } ∷ [])) name_is))

      used_are :
          map (λ f. f.name) (files_of up.state s.id)
          ≡ item.upload_name ∷ map (λ f. f.name) (files_of w s.id)
      used_are =
          names_are a item w up.state up.is_stored
          ∙ ap (λ name. name ∷ map (λ f. f.name) (files_of w s.id)) name_is

      IsTransferred-first :
          IsApart a.fresh_id rest
          → IsTransferred rest
              (files ++ (saved ∷ []))
              up.state
              (transfer rest (files ++ (saved ∷ [])) up.state)
          → IsTransferred ((a, item) ∷ rest) files w (transfer ((a, item) ∷ rest) files w)
      unfolding select files_of
      IsTransferred-first apart later = record {
        state = later.state;
        returned =
            upload_items-first
            ∙ later.returned
            ∙ ap (λ x. (ok (some x), later.state))
                (append_assoc files (saved ∷ []) (saved_files rest));
        arrived = (
          (
            (later.others a.fresh_id apart).0 ∙ up.is_stored.bytes_are,
            new_row a s item.upload_name w.files (length item.file),
            (later.others a.fresh_id apart).1 ∙ row_found a item w up.state up.is_stored,
            name_is,
            refl,
            refl,
          ),
          later.arrived,
        );
        scans_are =
            later.scans_are
            ∙ ap (scans_of rest) (
                up.is_stored.scan_is
                ∙ ap
                    (λ name.
                      record {
                        share_id = s.id;
                        directory = resolve_share_directory env s;
                        file_id = a.fresh_id;
                        file_name = name;
                      }
                      ∷ w.pending_scans)
                    name_is);
        others = λ id apart'.
            let kept = other-kept a item w up.state up.is_stored id apart'.0.0 apart'.0.1 in
            let kept' = later.others id apart'.1 in (kept'.0 ∙ kept.0, kept'.1 ∙ kept.1);
      }

-- Where an open share has room for all files of a transfer, no two of them get one id, no name is in
-- use or comes twice, and none of them replaces a file, the transfer returns after no more requests
-- than the files have chunks: the window then shows its files and the new ones, each new file is on
-- the disk with the bytes that were sent, its row has its name and its size, and every file with
-- another id is as it was.
pub upload_items-IsTransferred :
    (env : Env) (s : Share) (fuel : ℕ) (rights : UploadRights) (uploads : Uploads)
    (files : List SavedFile) (w : World)
    → 0 < env.settings.chunk_size
    → HasRoom env s (total_size uploads) w
    → HasDistinctIds uploads
    → HasFreeNames (map (λ f. f.name) (files_of w s.id)) uploads
    → All (IsReady env s fuel w) uploads
    → IsTransferred env s uploads files w (
        upload_items
          (λ a. post_chunk env a rights s.id)
          env.settings.chunk_size
          fuel
          uploads
          files
          w)
unfolding upload_items
upload_items-IsTransferred env s fuel rights [] files w positive room distinct free ready = record {
  state = w;
  returned = ap (λ x. (ok (some x), w)) (sym (append-nil files));
  arrived = tt;
  scans_are = refl;
  others = λ id apart. (refl, refl);
}
upload_items-IsTransferred env s fuel rights ((a, item) ∷ rest) files w positive room
      (apart, distinct) (free, frees) ((fresh, is_new, enough), ready) =
    let up =
      upload_file-IsUploaded env a rights s item fuel w positive fresh.space
        (HasRoom-IsOpen env a s (length item.file) (total_size rest) w room fresh)
        (ap truthy is_new) fresh.untouched enough in
    IsTransferred-first env s fuel rights positive a item rest files w free is_new up apart (
      upload_items-IsTransferred env s fuel rights rest _ up.state positive
        (HasRoom-IsStored env a s item.upload_name item.file w up.state up.is_stored
          (total_size rest) room)
        distinct
        (transport
          (λ i.
            HasFreeNames
              (sym (used_are env s fuel rights positive a item rest files w free is_new up) i) rest)
          frees)
        (later-IsReady env s a item w up.state up.is_stored fuel rest apart ready))
