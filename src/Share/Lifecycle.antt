-- ===== src/Share/Lifecycle.antt =====
-- `create`, `complete`, `revertComplete`, `remove`, `isShareCompleted` and `isShareIdAvailable` of
-- backend/src/share/share.service.ts, and `getByToken` of
-- backend/src/reverseShare/reverseShare.service.ts.
pub mod Creation
pub mod Completion
use i_transfer.Base.{
  ℕ, String, Bool, true, false, not, ◌&&◌, Option, none, some, List, ◌∷◌, length, eqb, ltb, truthy,
  is_some, decrement, if◌then◌else◌,
}
use i_transfer.Email.{send_to_all, send_mail_to_reverse_share_creator}
use i_transfer.Env.{Env}
use i_transfer.Share.Expiration.{RelativeDate, resolve_expiration_date}
use i_transfer.Storage.{configured_local_storage_root, resolve_share_directory, delete_all_files}
use i_transfer.World.{
  World, User, Share, File, ShareSecurity, ReverseShare, Directory, local, s3, App, Outcome, ok,
  pure, throw, gets, throw_if, or_throw, ◌>>=◌, ◌>>◌, bad_request, not_found, forbidden,
  null_dereference, record_not_found, find_share, find_user, find_reverse_share_by_token, files_of,
  reverse_share_of, update_share, update_reverse_share, delete_share,
}

-- `CreateShareDTO`
pub record CreateShare : Type 0 where
  pub id : String
  pub name : Option (List ℕ)
  pub expiration : Option RelativeDate
  pub description : Option String
  pub allow_public_upload : Bool
  pub allow_versioning : Bool
  pub recipients : List String
  pub security : Option ShareSecurity

pub is_share_id_available : World → String → Bool
is_share_id_available w id = not (is_some (find_share w id))

-- `ReverseShareService.getByToken`
pub get_by_token : World → Option String → Option ReverseShare
get_by_token w token = elim (truthy token) [
  | none ↦ none
  | some t ↦ find_reverse_share_by_token w t
]

hash_password : Env → Option String → Option String
hash_password env password = elim (truthy password) [ none ↦ password | some p ↦ some (env.hash p) ]

-- An empty security object counts as none, and a password is stored as its hash.
pub security_of : Env → Option ShareSecurity → Option ShareSecurity
unfolding hash_password
security_of env none = none
security_of env (some sec) =
    if not (is_some sec.password) && not (is_some sec.max_views)
    then none
    else some (record sec { password = hash_password env sec.password })

pub expiration_for : Env → CreateShare → Option ReverseShare → Outcome ℕ
expiration_for env dto (some reverse_share) = ok reverse_share.share_expiration
expiration_for env dto none = resolve_expiration_date env dto.expiration

-- The row that `prisma.share.create` writes, with the defaults of the schema.
pub new_share : Env → CreateShare → Option User → ℕ → Share
unfolding security_of configured_local_storage_root
new_share env dto user expiration = record {
  id = dto.id;
  created_at = env.now;
  name = dto.name;
  upload_locked = false;
  allow_public_upload = dto.allow_public_upload;
  allow_versioning = dto.allow_versioning;
  is_zip_ready = false;
  views = 0;
  expiration = expiration;
  description = dto.description;
  removed_reason = none;
  creator_id = elim user [ none ↦ none | some u ↦ some u.id ];
  reverse_share_id = none;
  security = security_of env dto.security;
  recipients = dto.recipients;
  storage_provider = if env.settings.s3_enabled then s3 else local;
  local_storage_path =
      if env.settings.s3_enabled then none else some (configured_local_storage_root env);
}

abbrev pub directories_with : Env → Share → List Directory → List Directory
directories_with env share directories = elim share.storage_provider [
  | local ↦ resolve_share_directory env share ∷ directories
  | s3 ↦ directories
]

insert_share : Env → Share → App Share
insert_share env share w = (
  ok share,
  record w { shares = share ∷ w.shares; directories = directories_with env share w.directories },
)

-- `shares: { connect: { id } }` on the reverse share.
connect_to : Option ReverseShare → String → App (Unit {0})
connect_to none share_id = pure tt
connect_to (some r) share_id =
    update_share share_id (λ s. record s { reverse_share_id = some r.id }) >> pure tt

-- The row is found by the token of the request, not by the share's reverse share.
count_use : Option ReverseShare → Option String → App (Unit {0})
count_use none token = pure tt
count_use (some r) none = throw record_not_found
count_use (some r) (some token) =
    update_reverse_share token (λ r. record r { remaining_uses = decrement r.remaining_uses })
    >> pure tt

module _ (env : Env) where
  unfoldable pub create : CreateShare → Option User → Option String → App Share
  unfolding is_share_id_available get_by_token expiration_for new_share insert_share connect_to
  create dto user reverse_share_token = do
    available ← gets (λ w. is_share_id_available w dto.id)
    throw_if (not available) (bad_request "Share id already in use")
    reverse_share ← gets (λ w. get_by_token w reverse_share_token)
    expiration ← λ w. (expiration_for env dto reverse_share, w)
    share ← insert_share env (new_share env dto user expiration)
    connect_to reverse_share dto.id
    pure share

  -- `share.reverseShare ? smtp.enabled && sendEmailNotification : undefined`
  notifies_creator : Option ReverseShare → Bool
  notifies_creator none = false
  notifies_creator (some r) = env.settings.smtp_enabled && r.send_email_notification

  notify_creator : Option ReverseShare → String → App (Unit {0})
  notify_creator none share_id = pure tt
  notify_creator (some r) share_id =
      if notifies_creator (some r)
      then (do
        creator ← λ w. or_throw null_dereference (find_user w r.creator_id) w
        send_mail_to_reverse_share_creator env creator.email share_id)
      else pure tt

  -- The mails, in order.
  announce : String → Share → App (Unit {0})
  announce id share = do
    send_to_all env id share.recipients
    reverse_share ← gets (λ w. reverse_share_of w share)
    notify_creator reverse_share id

  settle : String → Option String → Share → List File → App (Share × Bool)
  settle id reverse_share_token share files = do
    reverse_share ← gets (λ w. reverse_share_of w share)
    count_use reverse_share reverse_share_token
    updated ←
        update_share id
          (λ s. record s { upload_locked = true; is_zip_ready = ltb 1 (length files) })
    pure (updated, notifies_creator reverse_share)

  pub complete : String → Option String → App (Share × Bool)
  unfolding announce settle notify_creator count_use notifies_creator
  complete id reverse_share_token = do
    found ← gets (λ w. find_share w id)
    share ← or_throw null_dereference found
    throw_if share.upload_locked (bad_request "Share already completed")
    files ← gets (λ w. files_of w id)
    throw_if (eqb (length files) 0 && not share.allow_public_upload)
        (bad_request "You need at least on file in your share to complete it.")
    announce id share
    settle id reverse_share_token share files

unfoldable pub revert_complete : String → App Share
revert_complete id = update_share id (λ s. record s { upload_locked = false; is_zip_ready = false })

unfoldable pub remove : Env → String → Bool → App (Unit {0})
remove env share_id is_deleter_admin = do
  found ← gets (λ w. find_share w share_id)
  share ← or_throw (not_found "Share not found") found
  throw_if (not (is_some share.creator_id) && not is_deleter_admin)
      (forbidden "Anonymous shares can't be deleted" "Forbidden")
  delete_all_files env share_id
  delete_share share_id
