-- ===== src/File/Upload/Acceptance.antt =====
-- What a client may rely on when a chunk of a file is accepted, and when it is refused.
use mathlib.Core.Path.{transport}
use i_transfer.File.Name.{has}
use i_transfer.File.Name.Available.{has-create_available_file_name}
use i_transfer.File.Upload.Limits.{share_size, check_sizes_sound, IsPlanned, plan_upload-Ends}
use i_transfer.Base.{
  map, if◌then◌else◌, ℕ, ◌+◌, ◌-◌, ◌≤◌, ◌≡◌, refl, sym, ◌⊎◌, String, Bool, true, false, not, ◌&&◌,
  some, List, inl, inr, arith, length, eqb, ◌||◌, select, same, truthy, is_some, Bool-cases, Option,
  none, ap, ◌∙◌, ◌==◌, [], ◌∷◌,
}
use i_transfer.Env.{Env}
use i_transfer.File.Upload.{
  append_file, bytes_at, bytes_of, versioned_files, write_chunk, create, store_file, Chunk,
  FileQuery, Arrival, Plan, make_plan, plan_upload, sizes, expected_chunk_index, exceeds_share_size,
  exceeds_quota, user_storage_usage, kept_files, replacement_of,
}
use i_transfer.Guard.Upload.{UploadRights}
use i_transfer.Migration.Disk.{exists}
use i_transfer.Storage.{is_locked, resolve_share_directory}
use i_transfer.World.{
  App, Ends-weaken, Ends-trivial, Ends-ok, Ends-throws, pure, Ends, Ends-resume, World, Share, ok,
  throws, throw_if, Ends-throw_if, file_system_error, tmp_chunk, File, find_share, files_of,
  creator_of, reverse_share_of, Exception,
}

-- What a client may rely on when a chunk is accepted.
pub record IsAccepted (env : Env) (a : Arrival) (chunk : Chunk) (q : FileQuery) (id : String)
    (rights : UploadRights) (w : World) (answer : String × List ℕ) : Type 0 where
  pub plan : Plan
  pub answered : answer ≡ (plan.file_id, plan.file_name)
  pub found : find_share w id ≡ some plan.share
  pub id_is : (plan.file_id ≡ a.fresh_id) ⊎ (q.id ≡ some plan.file_id)
  pub held_is :
      plan.disk_size
      ≡ length
          (bytes_of (bytes_at w (resolve_share_directory env plan.share) (tmp_chunk plan.file_id)))
  pub replaced_are :
      plan.versioned
      ≡ select
          (λ f.
            (rights.allow_versioning || rights.is_share_owner_upload)
            && (is_some (truthy q.replace_file_id) && same (some f.id) q.replace_file_id))
          (files_of w plan.share.id)
  pub made : exists w (resolve_share_directory env plan.share) ≡ true
  pub unlocked : is_locked id w.locked_share_ids ≡ false
  pub not_completed : plan.share.upload_locked && not rights.allow_completed_share_upload ≡ false
  pub in_turn : expected_chunk_index env plan.disk_size ≡ chunk.index
  pub fits_disk : length a.bytes ≤ a.available_space
  pub fits_share :
      exceeds_share_size env (reverse_share_of w plan.share) (share_size a plan w) ≡ false
  pub fits_quota :
      exceeds_quota (creator_of w plan.share) (
        user_storage_usage w plan.share.creator_id
        - sizes plan.versioned
        + plan.disk_size
        + length a.bytes)
      ≡ false
  pub name_is_free :
      has
        (map (λ f. f.name) (kept_files (replacement_of rights q) (files_of w plan.share.id)))
        plan.file_name
      ≡ false

planned_name :
    (env : Env) (q : FileQuery) (rights : UploadRights) (s : Share) (file_id : String) (w : World)
    → let plan = make_plan env q rights s file_id w in
      has
        (map (λ f. f.name) (kept_files (replacement_of rights q) (files_of w plan.share.id)))
        plan.file_name
      ≡ false
unfolding make_plan
planned_name env q rights s file_id w =
    has-create_available_file_name q.name
      (map (λ f. f.name) (kept_files (replacement_of rights q) (files_of w s.id)))

select-nothing : (files : List File) → select (λ f. false) files ≡ []
unfolding select
select-nothing [] = refl
select-nothing (f ∷ files) = select-nothing files

versioned_are :
    (q : FileQuery) (rights : UploadRights) (files : List File)
    → versioned_files (replacement_of rights q) files
      ≡ select
          (λ f.
            (rights.allow_versioning || rights.is_share_owner_upload)
            && (is_some (truthy q.replace_file_id) && same (some f.id) q.replace_file_id))
          files
unfolding versioned_files replacement_of
versioned_are q rights files =
    go (rights.allow_versioning || rights.is_share_owner_upload) q.replace_file_id
  where
    go :
        (allowed : Bool) (id : Option String)
        → versioned_files (if allowed then truthy id else none) files
          ≡ select (λ f. allowed && (is_some (truthy id) && same (some f.id) id)) files
    go false id = sym (select-nothing files)
    go true none = sym (select-nothing files)
    go true (some id) = elim (Bool-cases (id == "")) [
      | inl empty ↦ rw empty (sym (select-nothing files))
      | inr given ↦ rw given refl
    ]

IsPlanned-IsAccepted :
    (env : Env) (a : Arrival) (chunk : Chunk) (q : FileQuery) (id : String) (rights : UploadRights)
    (w w' : World) (plan : Plan)
    → IsPlanned env a chunk q id rights w plan w'
    → IsAccepted env a chunk q id rights w (plan.file_id, plan.file_name)
unfolding make_plan
IsPlanned-IsAccepted env a chunk q id rights w w' plan p =
    let limits = check_sizes_sound env a plan w p.sized in
    record {
      plan = plan;
      answered = refl;
      found = p.found;
      id_is = p.id_is;
      held_is = ap (λ (x : Plan). x.disk_size) p.planned;
      replaced_are =
          ap (λ (x : Plan). x.versioned) p.planned
          ∙ versioned_are q rights (files_of w plan.share.id);
      made = ap (λ (x : Plan). exists w x.directory) (sym p.planned) ∙ p.made;
      unlocked = p.unlocked;
      not_completed = p.not_completed;
      in_turn = p.in_turn;
      fits_disk = limits.0;
      fits_share = limits.1;
      fits_quota = limits.2;
      name_is_free =
          transport
            (λ i.
              (has
                  (map (λ f. f.name)
                    (kept_files (replacement_of rights q) (files_of w (sym p.planned i).share.id)))
                  (sym p.planned i).file_name
                ≡ false))
            (planned_name env q rights plan.share plan.file_id w);
    }

Ends-only_if :
    (P : Type 0) (b : Bool) (m : App (Unit {0})) (w : World)
    → (b ≡ true → P)
    → Ends (λ _ _. Unit {0}) (λ _. P) ((if b then m else pure tt) w)
Ends-only_if P true m w holds = Ends-trivial P (holds refl) (m w)
Ends-only_if P false m w holds = tt

eqb-same : (m n : ℕ) → eqb m n ≡ true → m ≡ n
eqb-same m n h = ground arith

write_chunk-Ends :
    (a : Arrival) (chunk : Chunk) (plan : Plan) (w : World)
    → Ends
        (λ _ _. Unit {0})
        (λ w'. (w' ≡ w) ⊎ (chunk.index + 1 ≡ chunk.total))
        (write_chunk a chunk plan w)
unfolding write_chunk
write_chunk-Ends a chunk plan w =
    Ends-resume _ _ (throw_if (not (exists w plan.directory)) file_system_error w) _ (
      Ends-throw_if _ _ (not (exists w plan.directory)) file_system_error w (inl refl) λ made.
        Ends-weaken _ _ _ _
          ((if eqb (chunk.index + 1) chunk.total then store_file plan else pure tt)
            (append_file plan.directory (tmp_chunk plan.file_id) a.bytes w))
          (Ends-only_if (chunk.index + 1 ≡ chunk.total) (eqb (chunk.index + 1) chunk.total)
            (store_file plan) _ (eqb-same _ _))
          (λ _ _ _. tt) (λ _ last. inr last))

create-Ends :
    (env : Env) (a : Arrival) (chunk : Chunk) (q : FileQuery) (id : String) (rights : UploadRights)
    (w : World)
    → Ends
        (λ answer _. IsAccepted env a chunk q id rights w answer)
        (λ w'. (w' ≡ w) ⊎ (chunk.index + 1 ≡ chunk.total))
        (create env a chunk q id rights w)
unfolding create
create-Ends env a chunk q id rights w = Ends-resume _ _ (plan_upload env a chunk q id rights w) _ (
    Ends-weaken _ _ _ _ (plan_upload env a chunk q id rights w)
      (plan_upload-Ends env a chunk q id rights w)
      (λ plan w1 planned. Ends-resume _ _ (write_chunk a chunk plan w1) _ (
        Ends-weaken _ _ _ _ (write_chunk a chunk plan w1) (write_chunk-Ends a chunk plan w1)
          (λ _ _ _. IsPlanned-IsAccepted env a chunk q id rights w w1 plan planned)
          (λ w2 stays. elim stays [
            | inl same ↦ inl (same ∙ planned.same_state)
            | inr last ↦ inr last
          ])))
      (λ w1 same. inl same))

-- An accepted chunk belongs to a share that exists, is not locked and is open to the uploader. It is
-- the chunk that is expected next after the bytes that the file of its id, the one given or a new one,
-- has on the disk so far. It fits on the disk, and keeps the share's files and the creator's
-- usage, where the file of the id that it replaces does not count, within their limits; the name that the file
-- gets is not the name of another file of the share that stays.
pub create-IsAccepted :
    (env : Env) (a : Arrival) (chunk : Chunk) (q : FileQuery) (id : String) (rights : UploadRights)
    (w w' : World) (answer : String × List ℕ)
    → create env a chunk q id rights w ≡ (ok answer, w')
    → IsAccepted env a chunk q id rights w answer
create-IsAccepted env a chunk q id rights w w' answer done =
    Ends-ok _ _ _ answer w' done (create-Ends env a chunk q id rights w)

-- A chunk that is not the last of its file and is refused leaves the state as it was.
pub create_refused :
    (env : Env) (a : Arrival) (chunk : Chunk) (q : FileQuery) (id : String) (rights : UploadRights)
    (w w' : World) (e : Exception)
    → create env a chunk q id rights w ≡ (throws e, w')
    → ¬ (chunk.index + 1 ≡ chunk.total)
    → w' ≡ w
create_refused env a chunk q id rights w w' e refused more =
    elim (Ends-throws _ _ _ e w' refused (create-Ends env a chunk q id rights w)) [
      | inl same ↦ same
      | inr last ↦ absurd (more last)
    ]
