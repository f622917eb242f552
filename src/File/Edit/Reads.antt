-- ===== src/File/Edit/Reads.antt =====
-- The download of a file whose row and share are there.
use i_transfer.Base.{◌≡◌, refl, String, false, some}
use i_transfer.Env.{Env}
use i_transfer.File.Edit.{get_local, with_share, read, is_withheld}
use i_transfer.File.Upload.{bytes_at}
use i_transfer.Storage.{resolve_share_directory}
use i_transfer.World.{World, Share, File, ok, stored, find_file, find_share}

pub get_local-found :
    (env : Env) (id : String) (f : File) (s : Share) (v : World)
    → find_file v id ≡ some f
    → find_share v f.share_id ≡ some s
    → is_withheld f.scan_status ≡ false
    → get_local env id v ≡ (
      ok (record { file = f; bytes = bytes_at v (resolve_share_directory env s) (stored f.id) }),
      v,
    )
unfolding get_local with_share read
get_local-found env id f s v row share readable = rw (row, share, readable, with_share, read) refl
