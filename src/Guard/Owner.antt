-- ===== src/Guard/Owner.antt =====
-- Guards on who owns a share or may create one: backend/src/share/guard/shareOwner.guard.ts,
-- backend/src/share/guard/createShare.guard.ts, `isValid` of
-- backend/src/reverseShare/reverseShare.service.ts and
-- backend/src/reverseShare/guards/reverseShareOwner.guard.ts.
use Prim.Native.String.{◌++◌}
use i_transfer.Base.{
  String, Bool, true, false, not, ◌||◌, Option, none, some, ◌==◌, truthy, same, ltb, is_exhausted,
  if◌then◌else◌,
}
use i_transfer.Env.{Env}
use i_transfer.Guard.Jwt.{Request, Activation, jwt_guard}
use i_transfer.Share.Token.{verify_anonymous_owner_token}
use i_transfer.World.{
  World, User, Share, App, pure, gets, or_throw, not_found, null_dereference, ◌>>=◌, find_share,
  find_reverse_share, find_reverse_share_by_token,
}

abbrev pub owner_cookie : String → String
owner_cookie id = "share_" ++ (id ++ "_owner")

-- `user?.isAdmin`
abbrev pub is_admin_user : Option User → Bool
is_admin_user none = false
is_admin_user (some u) = u.is_admin

-- `user?.id`
abbrev pub id_of : Option User → Option String
id_of none = none
id_of (some u) = some u.id

-- The decision for a share that was found and the user of the request.
unfoldable pub is_owner : Env → Request → Share → Option User → Bool
is_owner env req s user = if is_admin_user user then true else elim s.creator_id [
  | none ↦ verify_anonymous_owner_token env s (req.cookies (owner_cookie s.id))
  | some creator ↦ same (some creator) (id_of user)
]

unfoldable pub share_owner_guard : Env → Request → String → App Activation
share_owner_guard env req share_id = do
  found ← gets (λ w. find_share w share_id)
  s ← or_throw (not_found "Share not found") found
  activation ← jwt_guard env req
  pure (record { allowed = is_owner env req s activation.user; user = activation.user })

-- `ReverseShareService.isValid`
pub is_valid_reverse_share : Env → World → String → Bool
is_valid_reverse_share env w token = elim (find_reverse_share_by_token w token) [
  | none ↦ false
  | some r ↦ not (ltb r.share_expiration env.now || is_exhausted r.remaining_uses)
]

unfoldable pub create_share_guard : Env → Request → App Activation
unfolding is_valid_reverse_share
create_share_guard env req = do
  activation ← jwt_guard env req
  if activation.allowed then pure activation else (λ w.
      elim (truthy (req.cookies "reverse_share_token")) [
        | none ↦ pure activation w
        | some token ↦ pure (record activation { allowed = is_valid_reverse_share env w token }) w
      ])

-- The handler runs behind `JwtGuard`, which may let a request pass without a user.
unfoldable pub reverse_share_owner_guard : Option User → String → App Bool
reverse_share_owner_guard user id w = elim (find_reverse_share w id) [
  | none ↦ pure false w
  | some r ↦ elim user [
    | none ↦ or_throw null_dereference none w
    | some u ↦ pure (r.creator_id == u.id) w
  ]
]
