-- ===== src/File/Upload/Progress.antt =====
-- Chunks of a new file, sent in turn to an open share: each is taken, and the last one stores the file.
use i_transfer.Base.{
  ℕ, ◌+◌, ◌-◌, ◌≤◌, ◌≡◌, refl, ap, ◌∙◌, ◌⊎◌, inl, inr, String, Bool, true, false, not, ◌&&◌, ◌==◌,
  is_some, Option, none, some, List, [], ◌∷◌, arith, length, eqb, map, truthy, total, find?,
  delete_where,
}
use i_transfer.Env.{Env}
use i_transfer.File.Name.{create_available_file_name}
use i_transfer.File.Upload.{
  Chunk, FileQuery, Arrival, Plan, make_plan, plan_upload, check_sizes, sizes, expected_chunk_index,
  exceeds_share_size, exceeds_quota, user_storage_usage, file_id_of, replacement_of, bytes_at,
  bytes_of, versioned_files, kept_files, create, write_chunk, store_file, append_file, rename_file,
  remove_files, is_among, insert_file, start_scan,
}
use i_transfer.Guard.Upload.{UploadRights}
use i_transfer.Migration.Disk.{exists}
use i_transfer.Storage.{
  same_directory, is_locked, assert_share_is_not_locked, resolve_share_directory,
}
use i_transfer.World.{
  World, Directory, Share, ReverseShare, User, ok, find_share, find_file, files_of, creator_of,
  reverse_share_of, tmp_chunk, stored, unscanned, File, resume-to, throw_if-passes, or_throw-some,
}

abbrev pub is_made : List Directory → Directory → Bool
is_made directories d = is_some (find? (λ x. same_directory x d) directories)

exists-made : (w : World) (d : Directory) → is_made w.directories d ≡ true → exists w d ≡ true
unfolding exists
exists-made w d made = ground arith

-- A new file of this size may be uploaded to the share `s`, under an id that is drawn for it.
pub record IsOpen (env : Env) (a : Arrival) (s : Share) (size : ℕ) (w : World) : Type 0 where
  pub found : find_share w s.id ≡ some s
  pub made : is_made w.directories (resolve_share_directory env s) ≡ true
  pub unlocked : is_locked s.id w.locked_share_ids ≡ false
  pub not_completed : s.upload_locked ≡ false
  pub is_new : find_file w a.fresh_id ≡ none
  pub named : (a.fresh_id == "") ≡ false
  pub valid : a.is_valid_uuid a.fresh_id ≡ true
  pub fits_share :
      exceeds_share_size env (reverse_share_of w s) (sizes (files_of w s.id) + size) ≡ false
  pub fits_quota : exceeds_quota (creator_of w s) (user_storage_usage w s.creator_id + size) ≡ false

-- The query of a chunk of the file, which replaces no other.
pub record IsFor (a : Arrival) (name : List ℕ) (q : FileQuery) : Type 0 where
  pub id_is : (q.id ≡ none) ⊎ (q.id ≡ some a.fresh_id)
  pub name_is : q.name ≡ name
  pub replaces_none : truthy q.replace_file_id ≡ none

pub exceeds_share_size_mono :
    (env : Env) (r : Option ReverseShare) (m n : ℕ)
    → m ≤ n
    → exceeds_share_size env r n ≡ false
    → exceeds_share_size env r m ≡ false
unfolding exceeds_share_size
exceeds_share_size_mono env none m n le h = ground arith
exceeds_share_size_mono env (some r) m n le h = ground arith

pub exceeds_quota_mono :
    (u : Option User) (m n : ℕ) → m ≤ n → exceeds_quota u n ≡ false → exceeds_quota u m ≡ false
unfolding exceeds_quota
exceeds_quota_mono none m n le h = refl
exceeds_quota_mono (some u) m n le h = ground arith

insert_file-new :
    (f : File) (w : World)
    → find_file w f.id ≡ none
    → insert_file f w ≡ (ok tt, record w { files = f ∷ w.files })
unfolding insert_file
insert_file-new f w is_new = rw (is_new, insert_file) refl

delete_where-nothing :
    (share_id : String) (files : List File)
    → delete_where (λ f. f.share_id == share_id && false) files ≡ files
unfolding delete_where
delete_where-nothing share_id [] = refl
delete_where-nothing share_id (f ∷ files) = ground (arith, delete_where-nothing share_id files)

module _ (env : Env) (a : Arrival) (s : Share) (rights : UploadRights) (name : List ℕ) where
  file_id_of-drawn :
      (q : FileQuery) (bytes : List ℕ) (w : World)
      → (a.fresh_id == "") ≡ false
      → a.is_valid_uuid a.fresh_id ≡ true
      → IsFor a name q
      → file_id_of (record a { bytes = bytes }) q.id w ≡ (ok a.fresh_id, w)
  unfolding file_id_of
  file_id_of-drawn q bytes w named valid for = elim for.id_is [
    | inl first ↦ rw first refl
    | inr later ↦ rw later (ground arith)
  ]

  replacement_of-none : (q : FileQuery) → IsFor a name q → replacement_of rights q ≡ none
  unfolding replacement_of
  replacement_of-none q for = rw for.replaces_none (ground arith)

  -- The plan for a chunk, whose name and directory are the same for every chunk.
  unfoldable pub the_plan : World → Plan
  the_plan w = record {
    file_id = a.fresh_id;
    file_name = create_available_file_name name (map (λ f. f.name) (files_of w s.id));
    share = s;
    directory = resolve_share_directory env s;
    versioned = [];
    disk_size =
        length (bytes_of (bytes_at w (resolve_share_directory env s) (tmp_chunk a.fresh_id)));
  }

  make_plan-the_plan :
      (q : FileQuery) (w : World)
      → IsFor a name q
      → make_plan env q rights s a.fresh_id w ≡ the_plan w
  unfolding make_plan the_plan versioned_files kept_files
  make_plan-the_plan q w for = rw (replacement_of-none q for, for.name_is) refl

  check_sizes-passes :
      (b : Arrival) (size : ℕ) (w : World)
      → IsOpen env a s size w
      → length b.bytes ≤ b.available_space
      → (the_plan w).disk_size + length b.bytes ≤ size
      → check_sizes env b (the_plan w) w ≡ (ok tt, w)
  unfolding check_sizes the_plan total
  check_sizes-passes b size w ready fits within =
      let none_left : sizes (files_of w s.id) - 0 + (the_plan w).disk_size + length b.bytes
          ≤ sizes (files_of w s.id) + size =
        omega arith in
      let no_more : user_storage_usage w s.creator_id - 0 + (the_plan w).disk_size + length b.bytes
          ≤ user_storage_usage w s.creator_id + size =
        omega arith in
      let share_ok =
        exceeds_share_size_mono env (reverse_share_of w s) _ _ none_left ready.fits_share in
      let quota_ok = exceeds_quota_mono (creator_of w s) _ _ no_more ready.fits_quota in
      ground arith

  plan_upload-passes :
      (q : FileQuery) (chunk : Chunk) (bytes : List ℕ) (size : ℕ) (w : World)
      → IsOpen env a s size w
      → IsFor a name q
      → length bytes ≤ a.available_space
      → (the_plan w).disk_size + length bytes ≤ size
      → expected_chunk_index env (the_plan w).disk_size ≡ chunk.index
      → plan_upload env (record a { bytes = bytes }) chunk q s.id rights w ≡ (ok (the_plan w), w)
  unfolding plan_upload assert_share_is_not_locked the_plan resolve_share_directory
  plan_upload-passes q chunk bytes size w ready for fits within in_turn =
      let planned = make_plan-the_plan q w for in
      let b = record a { bytes = bytes } in
      let kept = replacement_of-none q for in
      resume-to _ _ a.fresh_id w (file_id_of-drawn q bytes w ready.named ready.valid for) (
        resume-to _ _ s w (or_throw-some _ _ w s ready.found) (
          resume-to _ _ tt w (throw_if-passes _ _ w ready.unlocked) (
            resume-to _ _ tt w
              (throw_if-passes (s.upload_locked && not rights.allow_completed_share_upload) _ w
                (rw ready.not_completed refl))
              (resume-to _ _ tt w
                (throw_if-passes (is_some (replacement_of rights q) && _) _ w (rw kept refl))
                (resume-to _ _ tt w
                  (throw_if-passes (s.upload_locked && _) _ w (rw ready.not_completed refl))
                  (resume-to _ _ tt w
                    (throw_if-passes
                      (not (
                        eqb
                          (expected_chunk_index env
                            (make_plan env q rights s a.fresh_id w).disk_size)
                          chunk.index))
                      _ w (rw planned (rw in_turn (ground arith))))
                    (resume-to _ _ tt w
                      (throw_if-passes
                        (not (exists w (make_plan env q rights s a.fresh_id w).directory)) _ w
                        (rw planned
                          (ap not (exists-made w (resolve_share_directory env s) ready.made))))
                      (resume-to (check_sizes env b (make_plan env q rights s a.fresh_id w) w) _ tt
                        w (rw planned (check_sizes-passes b size w ready fits within))
                        (resume-to _ _ tt w (throw_if-passes _ _ w ready.unlocked)
                          (ap (λ (p : Plan). (ok p, w)) planned))))))))))

  -- What a chunk that is not the last one leaves.
  unfoldable pub appended : List ℕ → World → World
  unfolding append_file
  appended bytes w = append_file (resolve_share_directory env s) (tmp_chunk a.fresh_id) bytes w

  unfoldable pub answer : World → String × List ℕ
  answer w = (a.fresh_id, create_available_file_name name (map (λ f. f.name) (files_of w s.id)))

  -- What the last chunk leaves: the file under its id, with a row.
  unfoldable pub renamed : List ℕ → World → World
  unfolding rename_file
  renamed bytes w =
      rename_file (resolve_share_directory env s) (tmp_chunk a.fresh_id) (stored a.fresh_id)
        (appended bytes w)

  unfoldable pub row : List ℕ → World → File
  row bytes w = record {
    id = a.fresh_id;
    name = create_available_file_name name (map (λ f. f.name) (files_of w s.id));
    size =
        length (
          bytes_of
            (bytes_at (renamed bytes w) (resolve_share_directory env s) (stored a.fresh_id)));
    scan_status = unscanned;
    share_id = s.id;
  }

  unfoldable pub completed : List ℕ → World → World
  unfolding start_scan
  completed bytes w =
      start_scan (the_plan w) (record (renamed bytes w) { files = row bytes w ∷ w.files })

  write_chunk-more :
      (chunk : Chunk) (bytes : List ℕ) (w : World)
      → is_made w.directories (resolve_share_directory env s) ≡ true
      → eqb (chunk.index + 1) chunk.total ≡ false
      → write_chunk (record a { bytes = bytes }) chunk (the_plan w) w ≡ (ok tt, appended bytes w)
  unfolding write_chunk appended the_plan
  write_chunk-more chunk bytes w made more =
      resume-to _ _ tt w
        (throw_if-passes (not (exists w (resolve_share_directory env s))) _ w
          (ap not (exists-made w (resolve_share_directory env s) made)))
        (rw more refl)

  store_file-stores :
      (bytes : List ℕ) (w : World)
      → find_file w a.fresh_id ≡ none
      → s.upload_locked ≡ false
      → store_file (the_plan w) (appended bytes w) ≡ (ok tt, completed bytes w)
  unfolding store_file the_plan renamed row completed appended insert_file remove_files is_among
      find_file find? delete_where append_file rename_file bytes_of start_scan
  store_file-stores bytes w is_new not_completed =
      resume-to
        (insert_file (row bytes w) (record (renamed bytes w) {
          files = delete_where (λ f. f.share_id == s.id && false) w.files;
        }))
        _ tt (record (renamed bytes w) { files = row bytes w ∷ w.files })
        (ap (λ files. insert_file (row bytes w) (record (renamed bytes w) { files = files }))
            (delete_where-nothing s.id w.files)
          ∙ insert_file-new (row bytes w) (record (renamed bytes w) { files = w.files }) is_new)
        (rw not_completed refl)

  write_chunk-last :
      (chunk : Chunk) (bytes : List ℕ) (w : World)
      → is_made w.directories (resolve_share_directory env s) ≡ true
      → find_file w a.fresh_id ≡ none
      → s.upload_locked ≡ false
      → eqb (chunk.index + 1) chunk.total ≡ true
      → write_chunk (record a { bytes = bytes }) chunk (the_plan w) w ≡ (ok tt, completed bytes w)
  unfolding write_chunk appended the_plan resolve_share_directory
  write_chunk-last chunk bytes w made is_new not_completed last =
      resume-to _ _ tt w
        (throw_if-passes (not (exists w (resolve_share_directory env s))) _ w
          (ap not (exists-made w (resolve_share_directory env s) made)))
        (rw last (store_file-stores bytes w is_new not_completed))

  module _ (q : FileQuery) (chunk : Chunk) (bytes : List ℕ) (size : ℕ) (w : World)
      (ready : IsOpen env a s size w) (for : IsFor a name q)
      (fits : length bytes ≤ a.available_space)
      (within : length
            (bytes_of (bytes_at w (resolve_share_directory env s) (tmp_chunk a.fresh_id)))
          + length bytes
        ≤ size)
      (in_turn : expected_chunk_index env
          (length (bytes_of (bytes_at w (resolve_share_directory env s) (tmp_chunk a.fresh_id))))
        ≡ chunk.index) where
    pub create-more :
        eqb (chunk.index + 1) chunk.total ≡ false
        → create env (record a { bytes = bytes }) chunk q s.id rights w
          ≡ (ok (answer w), appended bytes w)
    unfolding create answer the_plan
    create-more more =
        resume-to _ _ (the_plan w) w
          (plan_upload-passes q chunk bytes size w ready for fits within in_turn)
          (resume-to _ _ tt (appended bytes w) (write_chunk-more chunk bytes w ready.made more)
            refl)

    pub create-last :
        eqb (chunk.index + 1) chunk.total ≡ true
        → create env (record a { bytes = bytes }) chunk q s.id rights w
          ≡ (ok (answer w), completed bytes w)
    unfolding create answer the_plan
    create-last last =
        resume-to _ _ (the_plan w) w
          (plan_upload-passes q chunk bytes size w ready for fits within in_turn)
          (resume-to _ _ tt (completed bytes w)
            (write_chunk-last chunk bytes w ready.made ready.is_new ready.not_completed last) refl)
