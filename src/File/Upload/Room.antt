-- ===== src/File/Upload/Room.antt =====
-- Several new files, one after another, in a share that has room for them all.
use mathlib.Core.Path.{transport}
use i_transfer.Base.{
  ℕ, ◌+◌, ◌≤◌, ◌≡◌, refl, ap, sym, ◌∙◌, true, false, ◌==◌, eq_refl, none, some, List, ◌∷◌, length,
  select, find?, total, arith, truthy, Option-cases, inl, inr,
}
use i_transfer.Env.{Env}
use i_transfer.File.Upload.{
  Arrival, bytes_at, sizes, exceeds_share_size, exceeds_quota, user_storage_usage,
}
use i_transfer.File.Upload.Progress.{IsOpen, is_made, exceeds_share_size_mono, exceeds_quota_mono}
use i_transfer.File.Upload.Stored.{IsStored, new_row}
use i_transfer.Migration.Disk.Reads.{same_directory_refl}
use i_transfer.Storage.{resolve_share_directory, is_locked}
use i_transfer.World.{
  World, Share, tmp_chunk, find_share, find_file, files_of, creator_of, reverse_share_of, find_user,
  find_reverse_share,
}

-- The share is open and has room for so many bytes.
pub record HasRoom (env : Env) (s : Share) (size : ℕ) (w : World) : Type 0 where
  pub found : find_share w s.id ≡ some s
  pub made : is_made w.directories (resolve_share_directory env s) ≡ true
  pub unlocked : is_locked s.id w.locked_share_ids ≡ false
  pub not_completed : s.upload_locked ≡ false
  pub fits_share :
      exceeds_share_size env (reverse_share_of w s) (sizes (files_of w s.id) + size) ≡ false
  pub fits_quota : exceeds_quota (creator_of w s) (user_storage_usage w s.creator_id + size) ≡ false

-- The id that is drawn is not in use.
pub record IsFresh (env : Env) (a : Arrival) (s : Share) (w : World) : Type 0 where
  pub named : (a.fresh_id == "") ≡ false
  pub valid : a.is_valid_uuid a.fresh_id ≡ true
  pub is_new : find_file w a.fresh_id ≡ none
  pub untouched : bytes_at w (resolve_share_directory env s) (tmp_chunk a.fresh_id) ≡ none
  pub space : env.settings.chunk_size ≤ a.available_space

pub HasRoom-IsOpen :
    (env : Env) (a : Arrival) (s : Share) (size more : ℕ) (w : World)
    → HasRoom env s (size + more) w
    → IsFresh env a s w
    → IsOpen env a s size w
HasRoom-IsOpen env a s size more w room fresh = record {
  found = room.found;
  made = room.made;
  unlocked = room.unlocked;
  not_completed = room.not_completed;
  is_new = fresh.is_new;
  named = fresh.named;
  valid = fresh.valid;
  fits_share = exceeds_share_size_mono env (reverse_share_of w s) _ _ (omega arith) room.fits_share;
  fits_quota = exceeds_quota_mono (creator_of w s) _ _ (omega arith) room.fits_quota;
}

-- The usage grows by no more than the file.
usage-new_row :
    (env : Env) (a : Arrival) (s : Share) (name bytes : List ℕ) (w : World)
    → let u = record w { files = new_row a s name w.files (length bytes) ∷ w.files } in
      user_storage_usage u s.creator_id ≤ user_storage_usage w s.creator_id + length bytes
unfolding user_storage_usage select total find_share
usage-new_row env a s name bytes w = elim (Option-cases (truthy s.creator_id)) [
  | inl nobody ↦ rw (nobody, user_storage_usage) (omega arith)
  | inr (id, somebody) ↦ rw (somebody, user_storage_usage) (ground arith)
]

-- The state with the new row, and any disk.
HasRoom-new_row :
    (env : Env) (a : Arrival) (s : Share) (name bytes : List ℕ) (more : ℕ) (w v : World)
    → HasRoom env s (length bytes + more) w
    → HasRoom env s more (record w {
      disk = v.disk;
      files = new_row a s name w.files (length bytes) ∷ w.files;
      pending_scans = v.pending_scans;
    })
unfolding find_share files_of select total creator_of reverse_share_of find_user find_reverse_share
    user_storage_usage
HasRoom-new_row env a s name bytes more w v room = record {
  found = room.found;
  made = room.made;
  unlocked = room.unlocked;
  not_completed = room.not_completed;
  fits_share =
      rw (eq_refl s.id)
        (exceeds_share_size_mono env (reverse_share_of w s) _ _ (omega arith) room.fits_share);
  fits_quota =
      exceeds_quota_mono (creator_of w s) _ _ (omega (arith, usage-new_row env a s name bytes w))
        room.fits_quota;
}

module _ (env : Env) (a : Arrival) (s : Share) (name bytes : List ℕ) (w v : World)
    (is_stored : IsStored env a s name bytes w v) where
  -- A file with another id stays fresh.
  pub IsFresh-IsStored :
      (b : Arrival)
      → (a.fresh_id == b.fresh_id) ≡ false
      → (b.fresh_id == a.fresh_id) ≡ false
      → IsFresh env b s w
      → IsFresh env b s v
  unfolding find_file find?
  IsFresh-IsStored b other other' fresh = record {
    named = fresh.named;
    valid = fresh.valid;
    is_new = ap (find? (λ f. f.id == b.fresh_id)) is_stored.row_is ∙ rw other fresh.is_new;
    untouched =
        is_stored.others _ _ (rw (same_directory_refl (resolve_share_directory env s), other') refl)
          (rw (same_directory_refl (resolve_share_directory env s)) refl)
        ∙ fresh.untouched;
    space = fresh.space;
  }

  pub HasRoom-IsStored : (more : ℕ) → HasRoom env s (length bytes + more) w → HasRoom env s more v
  HasRoom-IsStored more room =
      let v_is =
        is_stored.tables_are
        ∙ ap (λ files. record w { disk = v.disk; files = files; pending_scans = v.pending_scans })
            is_stored.row_is in
      transport (λ i. HasRoom env s more (sym v_is i))
        (HasRoom-new_row env a s name bytes more w v room)
