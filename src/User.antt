-- ===== src/User.antt =====
-- The accounts: `update`, `delete`, `getTransferOwnershipSummary` and `transferOwnership` of
-- backend/src/user/user.service.ts. A transaction that throws has written nothing.
pub mod Admins
pub mod Ownership
use i_transfer.Base.{
  ℕ, String, Bool, true, false, not, ◌&&◌, ◌||◌, Option, none, some, List, [], ◌∷◌, ◌==◌, ◌≡◌, refl,
  get_or, is_some, eqb, same, length, find?, select, count, total, update_where, delete_where, ℤ,
  pos, negsuc, if◌then◌else◌,
}
use i_transfer.Env.{Env}
use i_transfer.Storage.{delete_all_files}
use i_transfer.World.{
  World, User, Share, ReverseShare, File, App, Outcome, ok, throws, pure, throw, gets, modify,
  throw_if, or_throw, ◌>>=◌, ◌>>◌, bad_request, find_user, find_share, update_user,
}

-- What `parseInt` gives for the quota of the request; `missing` for none and for the empty string.
pub data ParsedQuota : Type 0 where
  missing : ParsedQuota
  not_a_number : ParsedQuota
  parsed : ℤ → ParsedQuota

-- `UpdateUserDto`
pub record UpdateUser : Type 0 where
  pub username : Option String
  pub email : Option String
  pub password : Option String
  pub is_admin : Option Bool
  pub is_disabled : Option Bool
  pub storage_quota_bytes : ParsedQuota

unfoldable pub normalize_storage_quota : ParsedQuota → Outcome (Option ℕ)
normalize_storage_quota missing = ok none
normalize_storage_quota not_a_number =
    throws (bad_request "Storage quota must be a number of bytes")
normalize_storage_quota (parsed (negsuc n)) = ok none
normalize_storage_quota (parsed (pos n)) = ok (if eqb n 0 then none else some n)

abbrev pub is_active_admin : User → Bool
is_active_admin u = u.is_admin && not u.is_disabled

-- `prisma.user.count({ where: { isAdmin: true, isDisabled: false } })`
abbrev pub active_admin_count : World → ℕ
active_admin_count w = count is_active_admin w.users

-- `user.isAdmin === false || user.isDisabled === true`
pub removes_active_admin : User → UpdateUser → Bool
removes_active_admin existing dto =
    is_active_admin existing && (not (get_or true dto.is_admin) || get_or false dto.is_disabled)

-- `user.password && (await argon.hash(user.password))`; no password leaves the column as it is.
new_password : Env → Option String → Option String → Option String
new_password env old none = old
new_password env old (some p) = some (if p == "" then p else env.hash p)

-- `data: { ...user, password: hash }`: a field that is not given keeps its value, but the quota,
-- which `normalizeStorageQuota` has made null, does not.
pub apply_update : Env → UpdateUser → Option ℕ → User → User
unfolding new_password
apply_update env dto quota u = record u {
  username = get_or u.username dto.username;
  email = get_or u.email dto.email;
  password = new_password env u.password dto.password;
  is_admin = get_or u.is_admin dto.is_admin;
  is_disabled = get_or u.is_disabled dto.is_disabled;
  storage_quota_bytes = quota;
}

-- Another account has the username or the email.
unfoldable pub is_taken : List User → String → (User → String) → Option String → Bool
is_taken users id field none = false
is_taken users id field (some value) =
    is_some (find? (λ u. field u == value && not (u.id == id)) users)

pub revoke_sessions : String → World → World
revoke_sessions id w = record w {
  refresh_tokens = delete_where (λ t. t.user_id == id) w.refresh_tokens;
  login_tokens = delete_where (λ t. t.user_id == id) w.login_tokens;
  reset_tokens = delete_where (λ t. t.user_id == id) w.reset_tokens;
}

unfoldable pub lift : {A : Type 0} → Outcome A → App A
lift o w = (o, w)

module _ (env : Env) where
  pub update : String → UpdateUser → App User
  unfolding lift
  update id dto = do
    quota ← lift (normalize_storage_quota dto.storage_quota_bytes)
    found ← gets (λ w. find_user w id)
    existing ← or_throw (bad_request "User not found") found
    active ← gets active_admin_count
    throw_if (removes_active_admin existing dto && eqb active 1)
        (bad_request "Cannot disable or demote the last active admin user")
    users ← gets (λ w. w.users)
    throw_if (is_taken users id (λ u. u.username) dto.username)
        (bad_request "A user with this username already exists")
    throw_if (is_taken users id (λ u. u.email) dto.email)
        (bad_request "A user with this email already exists")
    updated ← update_user id (apply_update env dto quota)
    modify (λ w.
        if get_or false dto.is_disabled && not existing.is_disabled
        then revoke_sessions id w
        else w)
    pure updated

  -- `Promise.all`: every share's files are deleted, and the first exception is thrown.
  pub delete_files_of : List Share → App (Unit {0})
  delete_files_of [] w = (ok tt, w)
  delete_files_of (s ∷ shares) w =
      let first = delete_all_files env s.id w in
      let rest = delete_files_of shares first.1 in
      (elim first.0 [ ok _ ↦ rest.0 | throws e ↦ throws e ], rest.1)

-- The shares that the deletion of the user takes along: the user's, and those of the user's
-- reverse shares.
unfoldable pub goes_with : World → String → Share → Bool
goes_with w id s =
    same s.creator_id (some id)
    || is_some
        (find? (λ r. same s.reverse_share_id (some r.id) && r.creator_id == id) w.reverse_shares)

-- `prisma.user.delete`, with what `onDelete: Cascade` removes.
pub delete_user : String → World → World
unfolding revoke_sessions
delete_user id w = record (revoke_sessions id w) {
  users = delete_where (λ u. u.id == id) w.users;
  shares = delete_where (goes_with w id) w.shares;
  files =
      delete_where
        (λ f. elim (find_share w f.share_id) [ none ↦ false | some s ↦ goes_with w id s ]) w.files;
  reverse_shares = delete_where (λ r. r.creator_id == id) w.reverse_shares;
  api_tokens = delete_where (λ t. t.user_id == id) w.api_tokens;
}

pub delete : Env → String → App (Unit {0})
unfolding delete_files_of
delete env id = do
  found ← gets (λ w. find_user w id)
  user ← or_throw (bad_request "User not found") found
  active ← gets active_admin_count
  throw_if (is_active_admin user && eqb active 1)
      (bad_request "Cannot delete the last active admin user")
  shares ← gets (λ w. select (λ s. same s.creator_id (some id)) w.shares)
  delete_files_of env shares
  modify (delete_user id)

pub record OwnershipSummary : Type 0 where
  pub source_user_id : String
  pub share_count : ℕ
  pub reverse_share_count : ℕ
  pub total_size_bytes : ℕ

unfoldable pub get_transfer_ownership_summary : String → App OwnershipSummary
get_transfer_ownership_summary id = do
  found ← gets (λ w. find_user w id)
  _ ← or_throw (bad_request "User not found") found
  gets (λ w. record {
    source_user_id = id;
    share_count = count (λ s. same s.creator_id (some id)) w.shares;
    reverse_share_count = count (λ r. r.creator_id == id) w.reverse_shares;
    total_size_bytes =
        total (λ f. f.size)
          (select
            (λ f. elim (find_share w f.share_id) [
              | none ↦ false
              | some s ↦ same s.creator_id (some id)
            ])
            w.files);
  })

pub record Transfer : Type 0 where
  pub source_user_id : String
  pub target_user_id : String
  pub shares_transferred : ℕ
  pub reverse_shares_transferred : ℕ
  pub total_size_bytes : ℕ

-- The writes of the transaction.
pub move_ownership : (source target : String) → Bool → World → World
move_ownership source target include_reverse_shares w = record w {
  shares =
      update_where (λ s. same s.creator_id (some source))
        (λ s. record s { creator_id = some target }) w.shares;
  reverse_shares =
      if include_reverse_shares
      then (update_where (λ r. r.creator_id == source) (λ r. record r { creator_id = target })
          w.reverse_shares)
      else w.reverse_shares;
}

unfoldable pub transfer_ownership : (source target : String) → Bool → App Transfer
transfer_ownership source target include_reverse_shares = do
  throw_if (source == target) (bad_request "Source and target user must be different")
  source_user ← gets (λ w. find_user w source)
  target_user ← gets (λ w. find_user w target)
  _ ← or_throw (bad_request "Source user not found") source_user
  user ← or_throw (bad_request "Target user not found") target_user
  throw_if user.is_disabled (bad_request "Transfers can't be moved to a disabled user")
  summary ← get_transfer_ownership_summary source
  modify (move_ownership source target include_reverse_shares)
  pure (record {
    source_user_id = source;
    target_user_id = target;
    shares_transferred = summary.share_count;
    reverse_shares_transferred = if include_reverse_shares then summary.reverse_share_count else 0;
    total_size_bytes = summary.total_size_bytes;
  })
