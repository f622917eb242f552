-- ===== src/Desktop/Transfer.antt =====
-- The upload of the prepared files, one after another: the loop of `uploadFiles` of
-- desktop/src/main.ts, with the files of the share that the window keeps, `currentShareFiles`. For
-- each file comes what the backend takes from its surroundings.
pub mod Arrives
pub mod Prepared
use i_transfer.Base.{
  ℕ, String, Bool, true, false, Option, none, some, List, [], ◌∷◌, ◌++◌, same, delete_where,
}
use i_transfer.Desktop.Upload.{UploadItem, SavedFile, Post, upload_file}
use i_transfer.File.Upload.{Arrival}
use i_transfer.World.{World, App, pure, ◌>>=◌}

-- `currentShareFiles` without the file that was replaced, and with the new one.
unfoldable pub with_saved : List SavedFile → UploadItem → SavedFile → List SavedFile
with_saved files item saved =
    delete_where (λ f. same f.id item.replace_file_id) files ++ (saved ∷ [])

-- An upload that came to its end goes on; `none` passes on that there were more requests.
abbrev pub after :
    Option SavedFile → (SavedFile → App (Option (List SavedFile))) → App (Option (List SavedFile))
after none k = pure none
after (some saved) k = k saved

module _ (post : Arrival → Post) (chunk_size fuel : ℕ) where
  unfoldable pub upload_items :
      List (Arrival × UploadItem) → List SavedFile → App (Option (List SavedFile))
  unfolding with_saved
  upload_items [] files = pure (some files)
  upload_items ((a, item) ∷ rest) files = do
    saved ← upload_file (post a) chunk_size item fuel
    after saved (λ s. upload_items rest (with_saved files item s))
