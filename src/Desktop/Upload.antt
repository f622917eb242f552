-- ===== src/Desktop/Upload.antt =====
-- `uploadFile` of desktop/src/main.ts: the client of the upload of backend/src/file/local.service.ts,
-- which sends a file in chunks and goes on where the server expects it. A request is a handler of the
-- backend; a response that is not ok is an exception.

mod Slices
pub mod Complete
use i_transfer.Base.{
  ℕ, zero, suc, ◌+◌, ◌-◌, ◌*◌, ◌/◌, String, Option, none, some, List, leb, eqb, length,
  if◌then◌else◌,
}
use i_transfer.Env.{Env}
use i_transfer.File.Name.{take, drop}
use i_transfer.File.Upload.{Arrival, Chunk, FileQuery, create}
use i_transfer.Guard.Upload.{UploadRights}
use i_transfer.World.{World, App, Outcome, ok, throws, pure, Exception, unexpected_chunk, ◌>>=◌}

-- `UploadItem`, the file by its bytes.
pub record UploadItem : Type 0 where
  pub file : List ℕ
  pub upload_name : List ℕ
  pub replace_file_id : Option String

-- What `uploadFile` returns.
pub record SavedFile : Type 0 where
  pub id : Option String
  pub name : List ℕ

-- `blob.slice(start, end)`
unfoldable pub slice : List ℕ → (start end : ℕ) → List ℕ
unfolding take drop
slice bytes start end = take (end - start) (drop start bytes)

-- `Math.ceil(file.size / chunkSize)`, and one chunk for an empty file.
unfoldable pub chunk_count : (size chunk_size : ℕ) → ℕ
chunk_count size chunk_size =
    let chunks = (size + chunk_size - 1) / chunk_size in if eqb chunks 0 then 1 else chunks

-- The request for a chunk: its numbers, the file's query and its bytes.
abbrev pub Post : Type 0
Post = Chunk → FileQuery → List ℕ → App (String × List ℕ)

-- The response: saved, unexpected, or refused, which ends the upload.
unfoldable pub on_response :
    {A : Type 0}
    → Outcome (String × List ℕ) × World
    → (saved : String → List ℕ → App A) (expected : ℕ → App A) → Outcome A × World
on_response (ok (id, name), w) saved expected = saved id name w
on_response (throws (unexpected_chunk index), w) saved expected = expected index w
on_response (throws e, w) saved expected = (throws e, w)

module _ (post : Post) (chunk_size : ℕ) (item : UploadItem) where
  -- The request for the chunk of this number.
  unfoldable pub send : (chunks index : ℕ) → Option String → App (String × List ℕ)
  unfolding slice
  send chunks index file_id =
      post (record { index = index; total = chunks })
        (record { id = file_id; name = item.upload_name; replace_file_id = item.replace_file_id })
        (slice item.file (index * chunk_size) ((index + 1) * chunk_size))

  -- The loop, for at most so many requests; `none` says that there were more.
  unfoldable pub upload_chunks : (fuel chunks index : ℕ) → SavedFile → App (Option SavedFile)
  unfolding send on_response
  upload_chunks zero chunks index saved w = pure none w
  upload_chunks (suc fuel) chunks index saved w =
      let request =
        on_response (send chunks index saved.id w)
          (λ id name. upload_chunks fuel chunks (index + 1) (record { id = some id; name = name }))
          (λ expected. upload_chunks fuel chunks expected saved) in
      if leb chunks index then pure (some saved) w else request

  unfoldable pub upload_file : (fuel : ℕ) → App (Option SavedFile)
  unfolding upload_chunks chunk_count
  upload_file fuel =
      upload_chunks fuel (chunk_count (length item.file) chunk_size) 0
        (record { id = none; name = item.upload_name })

-- The backend that answers: `create` of the local files, with the rights of the request.
unfoldable pub post_chunk : Env → Arrival → UploadRights → String → Post
post_chunk env a rights share_id chunk q bytes =
    create env (record a { bytes = bytes }) chunk q share_id rights
