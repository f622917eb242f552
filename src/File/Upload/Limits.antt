-- ===== src/File/Upload/Limits.antt =====
-- What the checks of an upload guarantee.
use i_transfer.Base.{
  ℕ, ◌+◌, ◌-◌, ◌≤◌, ◌≡◌, refl, ap, ◌⊎◌, is_some, String, Bool, true, false, not, ◌&&◌, Option-cases,
  Bool-cases, none, ◌==◌, Option, some, inl, inr, arith, length, eqb, truthy,
}
use i_transfer.Env.{Env}
use i_transfer.File.Upload.{
  Chunk, FileQuery, Arrival, Plan, make_plan, plan_upload, check_sizes, sizes, expected_chunk_index,
  exceeds_share_size, exceeds_quota, user_storage_usage, file_id_of, replacement_of,
}
use i_transfer.Guard.Upload.{UploadRights}
use i_transfer.Migration.Disk.{exists}
use i_transfer.Storage.{is_locked, assert_share_is_not_locked}
use i_transfer.World.{
  throw_if, Ends, Ends-resume, Ends-or_throw, Ends-reads, Ends-throw_if, or_throw, World, Outcome,
  ok, throws, find_share, files_of, creator_of, reverse_share_of, Exception, not_found,
}

-- The sum of the share's files after the upload, of those that stay and what is on the disk.
abbrev pub share_size : Arrival → Plan → World → ℕ
share_size a plan w =
    sizes (files_of w plan.share.id) - sizes plan.versioned + plan.disk_size + length a.bytes

pub check_sizes_sound :
    (env : Env) (a : Arrival) (plan : Plan) (w : World)
    → (check_sizes env a plan w).0 ≡ ok tt
    → (length a.bytes ≤ a.available_space)
      × (exceeds_share_size env (reverse_share_of w plan.share) (share_size a plan w) ≡ false)
      × (exceeds_quota (creator_of w plan.share) (
            user_storage_usage w plan.share.creator_id
            - sizes plan.versioned
            + plan.disk_size
            + length a.bytes)
          ≡ false)
unfolding check_sizes
check_sizes_sound env a plan w h = (ground arith, ground arith, ground arith)

outcome_cases :
    {A : Type 0} (r : Outcome A × World) (w : World)
    → r.1 ≡ w
    → ((x : A) × (r ≡ (ok x, w))) ⊎ ((e : Exception) × (r ≡ (throws e, w)))
outcome_cases (ok x, w') w same = inl (x, ap (λ (v : World). (ok x, v)) same)
outcome_cases (throws e, w') w same = inr (e, ap (λ (v : World). (throws e, v)) same)

file_id_of_keeps : (a : Arrival) (id : Option String) (w : World) → (file_id_of a id w).1 ≡ w
unfolding file_id_of
file_id_of_keeps a id w = elim (Option-cases (truthy id)) [
  | inl absent ↦ ground arith
  | inr (given, present) ↦ ground arith
]

file_id_of_sound :
    (a : Arrival) (id : Option String) (w : World) (file_id : String)
    → file_id_of a id w ≡ (ok file_id, w)
    → (file_id ≡ a.fresh_id) ⊎ (id ≡ some file_id)
unfolding file_id_of
file_id_of_sound a none w file_id h = inl (ground arith)
file_id_of_sound a (some id) w file_id h = elim (Bool-cases (id == "")) [
  | inl empty ↦ inl (ground arith)
  | inr given ↦ inr (ground arith)
]

check_sizes_keeps :
    (env : Env) (a : Arrival) (plan : Plan) (w : World) → (check_sizes env a plan w).1 ≡ w
unfolding check_sizes
check_sizes_keeps env a plan w = ground arith

-- What holds of a chunk that passes the checks.
pub record IsPlanned (env : Env) (a : Arrival) (chunk : Chunk) (q : FileQuery) (id : String)
    (rights : UploadRights) (w : World) (plan : Plan) (w' : World) : Type 0 where
  pub same_state : w' ≡ w
  pub found : find_share w id ≡ some plan.share
  pub unlocked : is_locked id w.locked_share_ids ≡ false
  pub not_completed : plan.share.upload_locked && not rights.allow_completed_share_upload ≡ false
  pub planned : plan ≡ make_plan env q rights plan.share plan.file_id w
  pub in_turn : expected_chunk_index env plan.disk_size ≡ chunk.index
  pub id_is : (plan.file_id ≡ a.fresh_id) ⊎ (q.id ≡ some plan.file_id)
  pub made : exists w plan.directory ≡ true
  pub sized : (check_sizes env a plan w).0 ≡ ok tt

not-false : (b : Bool) → not b ≡ false → b ≡ true
not-false b h = ground arith

eqb-IsSame : (m n : ℕ) → not (eqb m n) ≡ false → m ≡ n
eqb-IsSame m n h = ground arith

pub plan_upload-Ends :
    (env : Env) (a : Arrival) (chunk : Chunk) (q : FileQuery) (id : String) (rights : UploadRights)
    (w : World)
    → Ends
        (IsPlanned env a chunk q id rights w)
        (λ w'. w' ≡ w)
        (plan_upload env a chunk q id rights w)
unfolding plan_upload assert_share_is_not_locked make_plan
plan_upload-Ends env a chunk q id rights w = Ends-resume _ _ (file_id_of a q.id w) _ (
    Ends-reads _ _ (file_id_of a q.id w) w (file_id_of_keeps a q.id w) refl λ file_id named.
      Ends-resume _ _ (or_throw (not_found "Share not found") (find_share w id) w) _ (
        Ends-or_throw _ _ _ (find_share w id) w refl λ s found.
          let p = make_plan env q rights s file_id w in
          let r = replacement_of rights q in
          let is_new_version =
            (s.upload_locked
              && (not rights.is_share_owner_upload
                  && (rights.allow_versioning
                      && (not rights.allow_public_upload && not (is_some r))))) in
          Ends-resume _ _ (assert_share_is_not_locked id w) _ (
            Ends-throw_if _ _ (is_locked id w.locked_share_ids) _ w refl λ unlocked.
              Ends-resume _ _
                (throw_if (s.upload_locked && not rights.allow_completed_share_upload) _ w) _
                (Ends-throw_if _ _ (s.upload_locked && not rights.allow_completed_share_upload) _ w
                  refl
                  λ not_completed.
                    Ends-resume _ _ (throw_if (is_some r && eqb (length p.versioned) 0) _ w) _ (
                      Ends-throw_if _ _ (is_some r && eqb (length p.versioned) 0) _ w refl
                        λ replaced. Ends-resume _ _ (throw_if is_new_version _ w) _ (
                          Ends-throw_if _ _ is_new_version _ w refl λ versioned.
                            Ends-resume _ _
                              (throw_if
                                (not (eqb (expected_chunk_index env p.disk_size) chunk.index)) _ w)
                              _
                              (Ends-throw_if _ _
                                (not (eqb (expected_chunk_index env p.disk_size) chunk.index)) _ w
                                refl
                                λ in_turn.
                                  Ends-resume _ _ (throw_if (not (exists w p.directory)) _ w) _ (
                                    Ends-throw_if _ _ (not (exists w p.directory)) _ w refl λ made.
                                      Ends-resume _ _ (check_sizes env a p w) _ (
                                        Ends-reads _ _ (check_sizes env a p w) w
                                          (check_sizes_keeps env a p w) refl
                                          λ _ sized.
                                            Ends-resume _ _ (assert_share_is_not_locked id w) _ (
                                              Ends-throw_if _ _ (is_locked id w.locked_share_ids) _
                                                w refl
                                                λ still.
                                                  let done : IsPlanned env a chunk q id rights w p
                                                      w =
                                                    record {
                                                      same_state = refl;
                                                      made = not-false (exists w p.directory) made;
                                                      id_is =
                                                          file_id_of_sound a q.id w file_id named;
                                                      found = found;
                                                      unlocked = unlocked;
                                                      not_completed = not_completed;
                                                      planned = refl;
                                                      in_turn = eqb-IsSame _ _ in_turn;
                                                      sized =
                                                          ap
                                                            (λ (o : Outcome (Unit {0}) × World).
                                                            o.0)
                                                            sized;
                                                    } in
                                                  done))))))))))
