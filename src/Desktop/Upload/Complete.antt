-- ===== src/Desktop/Upload/Complete.antt =====
-- A file that is sent in chunks to an open share arrives as it is.
use mathlib.Core.Path.{transport}
use i_transfer.Base.{
  ℕ, zero, suc, ◌+◌, ◌-◌, ◌*◌, ◌/◌, ◌≤◌, ◌<◌, ◌≡◌, refl, ap, ◌∙◌, ◌⊎◌, inl, inr, String, true,
  false, Option, none, some, List, ◌++◌, arith, length, eqb, leb, truthy, map,
}
use i_transfer.Desktop.Upload.{
  UploadItem, SavedFile, Post, slice, chunk_count, on_response, send, upload_chunks, upload_file,
  post_chunk,
}
use i_transfer.Desktop.Upload.Slices.{
  length-take, take_all, take-append_slice, length-slice-le, taken-within, chunk_count_bounds,
  next_chunk,
}
use i_transfer.Env.{Env}
use i_transfer.File.Name.{take, create_available_file_name}
use i_transfer.File.Edit.{get_local}
use i_transfer.File.Upload.{Arrival, bytes_at, bytes_of, expected_chunk_index}
use i_transfer.File.Upload.Progress.{
  IsOpen, IsFor, answer, appended, completed, create-more, create-last,
}
use i_transfer.File.Upload.Stored.{
  IsOpen-HasSameTables, new_row, get_local-IsStored, IsPartial, IsStored, appended-IsPartial,
  completed-IsStored, answer-HasSameTables,
}
use i_transfer.Guard.Upload.{UploadRights}
use i_transfer.Storage.{resolve_share_directory}
use i_transfer.World.{World, Share, Outcome, ok, files_of, tmp_chunk}

-- One round of the loop, where the chunk is saved, and its end.
module _ (post : Post) (chunk_size : ℕ) (item : UploadItem) where
  upload_chunks-saved :
      (fuel chunks index : ℕ) (saved : SavedFile) (v v' : World) (id : String) (name : List ℕ)
      → leb chunks index ≡ false
      → send post chunk_size item chunks index saved.id v ≡ (ok (id, name), v')
      → upload_chunks post chunk_size item (suc fuel) chunks index saved v
        ≡ upload_chunks post chunk_size item fuel chunks
            (index + 1)
            (record { id = some id; name = name })
            v'
  unfolding upload_chunks on_response
  upload_chunks-saved fuel chunks index saved v v' id name more sent = rw (more, sent) refl

  upload_chunks-over :
      (fuel chunks index : ℕ) (saved : SavedFile) (v : World)
      → leb chunks index ≡ true
      → upload_chunks post chunk_size item (suc fuel) chunks index saved v ≡ (ok (some saved), v)
  unfolding upload_chunks
  upload_chunks-over fuel chunks index saved v over = rw over refl

-- The outcome of a whole upload: the file's id and name, and the file stored.
pub record IsUploaded (env : Env) (a : Arrival) (s : Share) (item : UploadItem) (w : World)
    (r : Outcome (Option SavedFile) × World) : Type 0 where
  pub state : World
  pub returned : r ≡ (
    ok (
        some (record {
          id = some a.fresh_id;
          name = create_available_file_name item.upload_name (map (λ f. f.name) (files_of w s.id));
        })),
    state,
  )
  pub is_stored : IsStored env a s item.upload_name item.file w state
  pub downloaded : get_local env a.fresh_id state ≡ (
    ok (record {
      file = new_row a s item.upload_name w.files (length item.file);
      bytes = some item.file;
    }),
    state,
  )

module _ (env : Env) (a : Arrival) (rights : UploadRights) (s : Share) (item : UploadItem)
    (w : World) (positive : 0 < env.settings.chunk_size)
    (fits : env.settings.chunk_size ≤ a.available_space)
    (ready : IsOpen env a s (length item.file) w)
    (is_new : truthy item.replace_file_id ≡ none) where
  abbrev size : ℕ
  size = env.settings.chunk_size

  -- The slice of a chunk.
  next : ℕ → List ℕ
  next index = slice item.file (index * size) ((index + 1) * size)

  -- One request, for the chunk that the backend expects.
  module _ (index : ℕ) (file_id : Option String) (v : World)
      (inside : index < chunk_count (length item.file) size)
      (id_is : (file_id ≡ none) ⊎ (file_id ≡ some a.fresh_id))
      (p : IsPartial env a s (take (index * size) item.file) w v) where
    still-IsOpen : IsOpen env a s (length item.file) v
    still-IsOpen = IsOpen-HasSameTables env a s (length item.file) w v p.tables ready

    query-IsFor :
        IsFor a item.upload_name
          (record { id = file_id; name = item.upload_name; replace_file_id = item.replace_file_id })
    query-IsFor = record { id_is = id_is; name_is = refl; replaces_none = is_new }

    next_fits : length (next index) ≤ a.available_space
    unfolding next
    next_fits = omega (arith, length-slice-le item.file index size)

    next_within :
        length (bytes_of (bytes_at v (resolve_share_directory env s) (tmp_chunk a.fresh_id)))
          + length (next index)
        ≤ length item.file
    unfolding next
    next_within = omega (arith, ap length p.chunk_is, taken-within item.file index size)

    in_turn :
        expected_chunk_index env
          (length (bytes_of (bytes_at v (resolve_share_directory env s) (tmp_chunk a.fresh_id))))
        ≡ index
    unfolding expected_chunk_index
    in_turn =
        ap (λ held. (length held + size - 1) / size) p.chunk_is
        ∙ ap (λ n. (n + size - 1) / size)
            (length-take (index * size) item.file
              ((chunk_count_bounds (length item.file) size positive).2 index inside))
        ∙ next_chunk index size positive

    send-more :
        eqb (index + 1) (chunk_count (length item.file) size) ≡ false
        → send
            (post_chunk env a rights s.id)
            size
            item
            (chunk_count (length item.file) size)
            index
            file_id
            v
          ≡ (
            ok (answer env a s rights item.upload_name v),
            appended env a s rights item.upload_name (next index) v,
          )
    unfolding send post_chunk next
    send-more more =
        create-more env a s rights item.upload_name _ _ (next index) (length item.file) v
          still-IsOpen query-IsFor next_fits next_within in_turn more

    send-last :
        eqb (index + 1) (chunk_count (length item.file) size) ≡ true
        → send
            (post_chunk env a rights s.id)
            size
            item
            (chunk_count (length item.file) size)
            index
            file_id
            v
          ≡ (
            ok (answer env a s rights item.upload_name v),
            completed env a s rights item.upload_name (next index) v,
          )
    unfolding send post_chunk next
    send-last last =
        create-last env a s rights item.upload_name _ _ (next index) (length item.file) v
          still-IsOpen query-IsFor next_fits next_within in_turn last

  -- The last slice completes the file.
  whole :
      (index : ℕ)
      → index + 1 ≡ chunk_count (length item.file) size
      → take (index * size) item.file ++ next index ≡ item.file
  unfolding next
  whole index last =
      take-append_slice item.file index size
      ∙ take_all _ item.file
          (rw (← last) at ((chunk_count_bounds (length item.file) size positive).1))

  upload_chunks-IsUploaded :
      (rest fuel index : ℕ) (saved : SavedFile) (v : World)
      → index + 1 + rest ≡ chunk_count (length item.file) size
      → rest + 1 < fuel
      → (saved.id ≡ none) ⊎ (saved.id ≡ some a.fresh_id)
      → IsPartial env a s (take (index * size) item.file) w v
      → IsUploaded env a s item w (
          upload_chunks
            (post_chunk env a rights s.id)
            size
            item
            fuel
            (chunk_count (length item.file) size)
            index
            saved
            v)
  unfolding next answer
  upload_chunks-IsUploaded rest zero index saved v last enough id_is p = absurd (omega arith)
  upload_chunks-IsUploaded rest (suc zero) index saved v last enough id_is p = absurd (omega arith)
  upload_chunks-IsUploaded zero (suc (suc fuel)) index saved v last enough id_is p =
      let chunks = chunk_count (length item.file) size in
      let arrived =
        transport
          (λ i.
            IsStored env a s item.upload_name (whole index (omega arith) i) w
              (completed env a s rights item.upload_name (next index) v))
          (completed-IsStored env a s rights item.upload_name (take (index * size) item.file)
            (next index) w v p) in
      record {
        state = completed env a s rights item.upload_name (next index) v;
        returned =
            upload_chunks-saved (post_chunk env a rights s.id) size item (suc fuel) chunks index
              saved v _ _ _ (ground arith)
              (send-last index saved.id v (omega arith) id_is p (ground arith))
            ∙ upload_chunks-over (post_chunk env a rights s.id) size item fuel chunks (index + 1) _
                _ (ground arith)
            ∙ ap
                (λ (x : String × List ℕ). (
                  ok (some (record { id = some x.0; name = x.1 })),
                  completed env a s rights item.upload_name (next index) v,
                ))
                (answer-HasSameTables env a s rights item.upload_name w v p.tables);
        is_stored = arrived;
        downloaded =
            get_local-IsStored env a s item.upload_name item.file w
              (completed env a s rights item.upload_name (next index) v) arrived ready.found;
      }
  upload_chunks-IsUploaded (suc rest) (suc (suc fuel)) index saved v more enough id_is p =
      let chunks = chunk_count (length item.file) size in
      let later =
        upload_chunks-IsUploaded rest (suc fuel) (index + 1) _
          (appended env a s rights item.upload_name (next index) v) (omega arith) (omega arith)
          (inr refl)
          (transport
            (λ i.
              IsPartial env a s (take-append_slice item.file index size i) w
                (appended env a s rights item.upload_name (next index) v))
            (appended-IsPartial env a s rights item.upload_name (take (index * size) item.file)
              (next index) w v p)) in
      record {
        state = later.state;
        returned =
            upload_chunks-saved (post_chunk env a rights s.id) size item (suc fuel) chunks index
              saved v _ _ _ (ground arith)
              (send-more index saved.id v (omega arith) id_is p (ground arith))
            ∙ later.returned;
        is_stored = later.is_stored;
        downloaded = later.downloaded;
      }

-- A client that cuts a new file into chunks of the backend's size and sends them in turn to an open
-- share, one whose directory is there, that has room for the file and is neither completed nor being
-- moved, needs no more requests than chunks: the upload returns the id and the name that were chosen
-- for the file, the table has one more row, with their number, one more scan waits, and every other file
-- on the disk is as it was; a download of that id before the scan gives the bytes that were sent.
pub upload_file-IsUploaded :
    (env : Env) (a : Arrival) (rights : UploadRights) (s : Share) (item : UploadItem) (fuel : ℕ)
    (w : World)
    → 0 < env.settings.chunk_size
    → env.settings.chunk_size ≤ a.available_space
    → IsOpen env a s (length item.file) w
    → truthy item.replace_file_id ≡ none
    → bytes_at w (resolve_share_directory env s) (tmp_chunk a.fresh_id) ≡ none
    → chunk_count (length item.file) env.settings.chunk_size < fuel
    → IsUploaded env a s item w
        (upload_file (post_chunk env a rights s.id) env.settings.chunk_size item fuel w)
unfolding upload_file bytes_of take
upload_file-IsUploaded env a rights s item fuel w positive fits ready is_new untouched enough =
    let size = env.settings.chunk_size in
    let bounds = chunk_count_bounds (length item.file) size positive in
    upload_chunks-IsUploaded env a rights s item w positive fits ready is_new
      (chunk_count (length item.file) size - 1) fuel 0 _ w (omega (arith, bounds.0))
      (omega (arith, bounds.0)) (inl refl)
      (record {
        tables = record { same = refl };
        chunk_is = ap bytes_of untouched ∙ ap (λ n. take n item.file) (nothing size);
        others = λ d e other. refl;
      })
  where
    nothing : (n : ℕ) → 0 ≡ 0 * n
    nothing n = omega arith
