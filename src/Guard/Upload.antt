-- ===== src/Guard/Upload.antt =====
-- backend/src/file/guard/fileUpload.guard.ts: who may upload a file, and with which rights.
pub mod Rights
pub mod Owners
use i_transfer.Base.{
  String, Bool, true, false, not, ◌&&◌, ◌||◌, Option, none, some, is_some, same, truthy,
  if◌then◌else◌,
}
use i_transfer.Env.{Env, unix, is_never}
use i_transfer.Guard.Jwt.{Request, Activation, jwt_guard}
use i_transfer.Guard.Owner.{owner_cookie, is_admin_user, id_of}
use i_transfer.Guard.Security.{token_cookie}
use i_transfer.Share.Expiration.{is_expired}
use i_transfer.Share.Token.{verify_share_token, same_time}
use i_transfer.World.{
  World, User, Share, App, Outcome, ok, throws, pure, gets, throw_if, or_throw, not_found,
  forbidden, ◌>>=◌, ◌>>◌, find_share,
}

-- What the guard writes into the request.
pub record UploadRights : Type 0 where
  pub allow_completed_share_upload : Bool
  pub is_share_owner_upload : Bool
  pub allow_public_upload : Bool
  pub allow_versioning : Bool

unfoldable pub rights : Share → Bool → UploadRights
rights s is_owner_upload = record {
  allow_completed_share_upload = true;
  is_share_owner_upload = is_owner_upload;
  allow_public_upload = s.allow_public_upload;
  allow_versioning = s.allow_versioning;
}

-- The guard's own `verifyAnonymousOwnerToken`.
unfoldable pub has_owner_token : Env → Request → Share → Bool
has_owner_token env req s = elim (truthy (req.cookies (owner_cookie s.id))) [
  | none ↦ false
  | some token ↦ elim (env.verify token (unix env.now) (is_never s.expiration)) [
    | none ↦ false
    | some claims ↦
        same claims.token_type (some "shareOwner")
        && (same claims.share_id (some s.id)
            && same_time claims.share_created_at (unix s.created_at))
  ]
]

unfoldable pub is_share_owner : Env → Request → Share → Option User → Bool
is_share_owner env req s user =
    is_admin_user user
    || (same s.creator_id (id_of user) || (not (is_some s.creator_id) && has_owner_token env req s))

-- The checks for an upload through the public link.
pub public_upload : Env → Request → Share → String → App UploadRights
unfolding rights
public_upload env req s share_id = do
  throw_if (not s.allow_public_upload && not s.allow_versioning)
      (forbidden "Public upload is not enabled" "Forbidden")
  throw_if (is_expired env s) (not_found "Share not found")
  verified ← verify_share_token env share_id (req.cookies (token_cookie share_id))
  throw_if (not verified) (forbidden "Share token required" "share_token_required")
  pure (rights s false)

after_jwt : Env → Request → Share → String → Outcome Activation → App UploadRights
after_jwt env req s share_id (throws e) = public_upload env req s share_id
after_jwt env req s share_id (ok activation) =
    if is_share_owner env req s activation.user
    then pure (rights s true)
    else public_upload env req s share_id

unfoldable pub file_upload_guard : Env → Request → String → App UploadRights
unfolding after_jwt public_upload
file_upload_guard env req share_id = do
  found ← gets (λ w. find_share w share_id)
  s ← or_throw (not_found "Share not found") found
  λ w. let (outcome, w') = jwt_guard env req w in after_jwt env req s share_id outcome w'
