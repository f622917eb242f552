-- ===== src/File/Upload/Stored.antt =====
-- What a chunk of a new file leaves on the disk, and the file that the last chunk stores.
use mathlib.Core.Path.{transport}
use i_transfer.Base.{
  ℕ, ◌≡◌, refl, ap, sym, ◌∙◌, ◌==◌, none, some, List, ◌∷◌, ◌++◌, map, length, select, find?,
  eq_refl,
}
use i_transfer.Env.{Env}
use i_transfer.File.Edit.{get_local}
use i_transfer.File.Edit.Reads.{get_local-found}
use i_transfer.File.Name.{create_available_file_name}
use i_transfer.File.Upload.{
  Arrival, append_file, bytes_at, bytes_of, rename_file, start_scan, user_storage_usage,
}
use i_transfer.File.Upload.Disk.{IsOther, at-cons, at-cons_other, at-delete, at-delete_other}
use i_transfer.Guard.Upload.{UploadRights}
use i_transfer.File.Upload.Progress.{IsOpen, answer, appended, renamed, completed, row, the_plan}
use i_transfer.Migration.Disk.Reads.{same_directory_refl}
use i_transfer.Storage.{resolve_share_directory}
use i_transfer.World.{
  World, Share, File, PendingScan, unscanned, Directory, Entry, tmp_chunk, stored, ok, find_share,
  find_file, files_of, creator_of, reverse_share_of, find_user, find_reverse_share,
}

-- The state `v` differs from `w` in its disk only.
pub record HasSameTables (w v : World) : Type 0 where
  pub same : v ≡ record w { disk = v.disk }

pub IsOpen-HasSameTables :
    (env : Env) (a : Arrival) (s : Share) (size : ℕ) (w v : World)
    → HasSameTables w v
    → IsOpen env a s size w
    → IsOpen env a s size v
unfolding find_share find_file files_of creator_of reverse_share_of user_storage_usage find_user
    find_reverse_share
IsOpen-HasSameTables env a s size w v t ready =
    transport (λ i. IsOpen env a s size (sym t.same i))
      (record {
        found = ready.found;
        made = ready.made;
        unlocked = ready.unlocked;
        not_completed = ready.not_completed;
        is_new = ready.is_new;
        named = ready.named;
        valid = ready.valid;
        fits_share = ready.fits_share;
        fits_quota = ready.fits_quota;
      })

-- The row of the new file, in a table of files.
abbrev pub new_row : Arrival → Share → (name : List ℕ) → List File → (size : ℕ) → File
new_row a s name files size = record {
  id = a.fresh_id;
  name =
      create_available_file_name name (map (λ f. f.name) (select (λ f. f.share_id == s.id) files));
  size = size;
  scan_status = unscanned;
  share_id = s.id;
}

-- The scan that the new file waits for.
abbrev pub new_scan : Env → Arrival → Share → (name : List ℕ) → List File → PendingScan
new_scan env a s name files = record {
  share_id = s.id;
  directory = resolve_share_directory env s;
  file_id = a.fresh_id;
  file_name =
      create_available_file_name name (map (λ f. f.name) (select (λ f. f.share_id == s.id) files));
}

-- A new file of the share `s` with these bytes is there, and every other file is as it was.
pub record IsStored (env : Env) (a : Arrival) (s : Share) (name bytes : List ℕ) (w v : World)
    : Type 0 where
  pub row_is : v.files ≡ new_row a s name w.files (length bytes) ∷ w.files
  pub scan_is : v.pending_scans ≡ new_scan env a s name w.files ∷ w.pending_scans
  pub bytes_are : bytes_at v (resolve_share_directory env s) (stored a.fresh_id) ≡ some bytes
  pub no_chunk : bytes_at v (resolve_share_directory env s) (tmp_chunk a.fresh_id) ≡ none
  pub others :
      (d : Directory) (e : Entry)
      → IsOther (resolve_share_directory env s) (tmp_chunk a.fresh_id) d e
      → IsOther (resolve_share_directory env s) (stored a.fresh_id) d e
      → bytes_at v d e ≡ bytes_at w d e
  pub shares_are : v.shares ≡ w.shares
  pub tables_are : v ≡ record w { disk = v.disk; files = v.files; pending_scans = v.pending_scans }

-- The uploaded part of a file, with the other files as they were.
pub record IsPartial (env : Env) (a : Arrival) (s : Share) (bytes : List ℕ) (w v : World)
    : Type 0 where
  pub tables : HasSameTables w v
  pub chunk_is :
      bytes_of (bytes_at v (resolve_share_directory env s) (tmp_chunk a.fresh_id)) ≡ bytes
  pub others :
      (d : Directory) (e : Entry)
      → IsOther (resolve_share_directory env s) (tmp_chunk a.fresh_id) d e
      → bytes_at v d e ≡ bytes_at w d e

module _ (env : Env) (a : Arrival) (s : Share) (rights : UploadRights) (name : List ℕ) where
  directory : Directory
  directory = resolve_share_directory env s

  at-appended :
      (bytes : List ℕ) (w : World)
      → bytes_at (appended env a s rights name bytes w) directory (tmp_chunk a.fresh_id)
        ≡ some (bytes_of (bytes_at w directory (tmp_chunk a.fresh_id)) ++ bytes)
  unfolding bytes_at appended directory append_file
  at-appended bytes w = at-cons _ _ _ _

  at-appended_other :
      (bytes : List ℕ) (w : World) (d : Directory) (e : Entry)
      → IsOther directory (tmp_chunk a.fresh_id) d e
      → bytes_at (appended env a s rights name bytes w) d e ≡ bytes_at w d e
  unfolding bytes_at appended directory append_file
  at-appended_other bytes w d e other =
      at-cons_other _ _ _ _ d e other ∙ at-delete_other w.disk d e _ _ other

  pub appended-IsPartial :
      (before bytes : List ℕ) (w v : World)
      → IsPartial env a s before w v
      → IsPartial env a s (before ++ bytes) w (appended env a s rights name bytes v)
  unfolding directory bytes_of appended append_file
  appended-IsPartial before bytes w v p = record {
    tables = record {
      same =
          ap (λ (x : World). record x { disk = (appended env a s rights name bytes v).disk })
            p.tables.same;
    };
    chunk_is = ap bytes_of (at-appended bytes v) ∙ ap (λ held. held ++ bytes) p.chunk_is;
    others = λ d e other. at-appended_other bytes v d e other ∙ p.others d e other;
  }

  -- The chunk and the file are two places of one directory.
  two_places : IsOther directory (stored a.fresh_id) directory (tmp_chunk a.fresh_id)
  two_places = rw (same_directory_refl directory) refl

  at-renamed :
      (bytes : List ℕ) (v : World)
      → bytes_at (renamed env a s rights name bytes v) directory (stored a.fresh_id)
        ≡ some (
            bytes_of
              (bytes_at (appended env a s rights name bytes v) directory (tmp_chunk a.fresh_id)))
  unfolding bytes_at renamed rename_file directory
  at-renamed bytes v = at-cons _ _ _ _

  at-renamed_chunk :
      (bytes : List ℕ) (v : World)
      → bytes_at (renamed env a s rights name bytes v) directory (tmp_chunk a.fresh_id) ≡ none
  unfolding bytes_at renamed rename_file directory
  at-renamed_chunk bytes v =
      at-cons_other _ _ _ _ _ _ two_places
      ∙ at-delete_other _ _ _ _ _ two_places
      ∙ at-delete (appended env a s rights name bytes v).disk _ _

  at-renamed_other :
      (bytes : List ℕ) (v : World) (d : Directory) (e : Entry)
      → IsOther directory (tmp_chunk a.fresh_id) d e
      → IsOther directory (stored a.fresh_id) d e
      → bytes_at (renamed env a s rights name bytes v) d e ≡ bytes_at v d e
  unfolding bytes_at renamed rename_file directory
  at-renamed_other bytes v d e not_chunk not_stored =
      at-cons_other _ _ _ _ d e not_stored
      ∙ at-delete_other _ d e _ _ not_stored
      ∙ at-delete_other (appended env a s rights name bytes v).disk d e _ _ not_chunk
      ∙ at-appended_other bytes v d e not_chunk

  pub completed-IsStored :
      (before bytes : List ℕ) (w v : World)
      → IsPartial env a s before w v
      → IsStored env a s name (before ++ bytes) w (completed env a s rights name bytes v)
  unfolding directory completed renamed rename_file row appended append_file bytes_at bytes_of
      files_of start_scan the_plan
  completed-IsStored before bytes w v p =
      let held = (appended-IsPartial before bytes w v p).chunk_is in
      let files_are : v.files ≡ w.files = ap (λ (x : World). x.files) p.tables.same in
      record {
        row_is =
            ap (λ files. new_row a s name files (row env a s rights name bytes v).size ∷ files)
              files_are
            ∙ ap (λ size. new_row a s name w.files size ∷ w.files)
                (ap (λ o. length (bytes_of o)) (at-renamed bytes v) ∙ ap length held);
        scan_is = ap (λ (x : World). new_scan env a s name x.files ∷ x.pending_scans) p.tables.same;
        bytes_are = at-renamed bytes v ∙ ap some held;
        no_chunk = at-renamed_chunk bytes v;
        others = λ d e not_chunk not_stored.
            at-renamed_other bytes v d e not_chunk not_stored ∙ p.others d e not_chunk;
        shares_are = ap (λ (x : World). x.shares) p.tables.same;
        tables_are =
            ap
              (λ (x : World). record x {
                disk = (completed env a s rights name bytes v).disk;
                files = (completed env a s rights name bytes v).files;
                pending_scans = (completed env a s rights name bytes v).pending_scans;
              })
              p.tables.same;
      }

pub answer-HasSameTables :
    (env : Env) (a : Arrival) (s : Share) (rights : UploadRights) (name : List ℕ) (w v : World)
    → HasSameTables w v
    → answer env a s rights name v ≡ answer env a s rights name w
unfolding answer files_of
answer-HasSameTables env a s rights name w v t = ap (answer env a s rights name) t.same

module _ (env : Env) (a : Arrival) (s : Share) (name bytes : List ℕ) (w v : World)
    (is_stored : IsStored env a s name bytes w v) where
  find_file-IsStored : find_file v a.fresh_id ≡ some (new_row a s name w.files (length bytes))
  unfolding find_file find?
  find_file-IsStored =
      ap (find? (λ f. f.id == a.fresh_id)) is_stored.row_is ∙ rw (eq_refl a.fresh_id) refl

  find_share-IsStored : find_share w s.id ≡ some s → find_share v s.id ≡ some s
  unfolding find_share
  find_share-IsStored found = ap (find? (λ x. x.id == s.id)) is_stored.shares_are ∙ found

  -- The stored file is the one that a download gives.
  pub get_local-IsStored :
      find_share w s.id ≡ some s
      → get_local env a.fresh_id v
        ≡ (ok (record { file = new_row a s name w.files (length bytes); bytes = some bytes }), v)
  get_local-IsStored found =
      get_local-found env a.fresh_id _ s v find_file-IsStored (find_share-IsStored found) refl
      ∙ ap (λ b. (ok (record { file = new_row a s name w.files (length bytes); bytes = b }), v))
          is_stored.bytes_are
