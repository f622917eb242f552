-- ===== src/Guard/Security.antt =====
-- Guards on who may see a share: backend/src/share/guard/shareTokenSecurity.guard.ts,
-- backend/src/share/guard/shareSecurity.guard.ts and backend/src/file/guard/fileSecurity.guard.ts.
pub mod Admission
use Prim.Native.String.{◌++◌}
use i_transfer.Base.{
  String, Bool, true, false, not, ◌&&◌, ◌||◌, Option, none, some, ◌==◌, truthy, is_some, same,
  if◌then◌else◌,
}
use i_transfer.Env.{Env}
use i_transfer.Guard.Jwt.{Request, Activation, jwt_guard}
use i_transfer.Guard.Owner.{id_of}
use i_transfer.Share.Expiration.{is_expired}
use i_transfer.Share.Token.{verify_share_token, is_views_exceeded, increase_view_count}
use i_transfer.World.{
  World, User, Share, ReverseShare, App, pure, gets, throw, throw_if, or_throw, not_found,
  forbidden, ◌>>=◌, ◌>>◌, find_share, reverse_share_of,
}

abbrev pub token_cookie : String → String
token_cookie id = "share_" ++ (id ++ "_token")

-- A share that exists and has not expired.
unfoldable pub live_share : Env → World → String → Option Share
live_share env w id = elim (find_share w id) [
  | none ↦ none
  | some s ↦ if is_expired env s then none else some s
]

unfoldable pub share_token_security : Env → String → App Bool
share_token_security env share_id = do
  found ← gets (λ w. live_share env w share_id)
  or_throw (not_found "Share not found") found
  pure true

-- `share.security?.password`
unfoldable pub has_password : Share → Bool
has_password s = elim s.security [ none ↦ false | some sec ↦ is_some (truthy sec.password) ]

-- A share that came in through a reverse share which is not public is for its creators alone.
unfoldable pub is_private_to_others : Share → Option ReverseShare → Option User → Bool
is_private_to_others s none user = false
is_private_to_others s (some r) user =
    not r.public_access
    && (not (same s.creator_id (id_of user)) && not (same (some r.creator_id) (id_of user)))

unfoldable pub share_security_guard : Env → Request → String → App Activation
share_security_guard env req share_id = do
  let token = req.cookies (token_cookie share_id)
  found ← gets (λ w. live_share env w share_id)
  reverse_share ← gets (λ w. elim found [ none ↦ none | some s ↦ reverse_share_of w s ])
  s ← or_throw (not_found "Share not found") found
  throw_if (has_password s && not (is_some (truthy token)))
      (forbidden "This share is password protected" "share_password_required")
  verified ← verify_share_token env share_id token
  throw_if (not verified) (forbidden "Share token required" "share_token_required")
  activation ← jwt_guard env req
  throw_if (is_private_to_others s reverse_share activation.user)
      (forbidden "Only reverse share creator can access this share" "private_share")
  pure (record { allowed = true; user = activation.user })

-- A file that is asked for directly, without a share token.
unfoldable pub direct_access : Env → String → App Activation
direct_access env share_id = do
  found ← gets (λ w. live_share env w share_id)
  s ← or_throw (not_found "File not found") found
  throw_if (has_password s) (forbidden "This share is password protected" "Forbidden")
  throw_if (is_views_exceeded s) (forbidden "Maximum views exceeded" "share_max_views_exceeded")
  increase_view_count s
  pure (record { allowed = true; user = none })

unfoldable pub file_security_guard : Env → Request → String → App Activation
unfolding direct_access
file_security_guard env req share_id w = elim (truthy (req.cookies (token_cookie share_id))) [
  | none ↦ direct_access env share_id w
  | some token ↦ share_security_guard env req share_id w
]
