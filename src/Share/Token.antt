-- ===== src/Share/Token.antt =====
-- Share tokens and the view counter: `getShareToken`, `generateShareToken`, `verifyShareToken` and
-- `increaseViewCount` of backend/src/share/share.service.ts, `setAnonymousShareOwnerCookie` of
-- backend/src/share/share.controller.ts, and `verifyAnonymousOwnerToken` of
-- backend/src/share/guard/shareOwner.guard.ts.
pub mod RoundTrip
pub mod Issued
pub mod Views
use i_transfer.Base.{
  ℕ, ◌+◌, ℤ, String, Bool, false, not, ◌&&◌, Option, none, some, leb, eqb, truthy, truthy_num, same,
  if◌then◌else◌,
}
use i_transfer.Env.{Env, Claims, unix, is_never, seconds_until}
use i_transfer.World.{
  Share, ShareSecurity, App, pure, gets, throw, throw_if, or_throw, forbidden, null_dereference,
  ◌>>=◌, ◌>>◌, find_share, update_share,
}

-- The counter is written from the row that was read before.
pub increase_view_count : Share → App Share
increase_view_count share = update_share share.id (λ s. record s { views = share.views + 1 })

unfoldable pub share_claims : Share → Claims
share_claims s = record {
  sub = none;
  share_id = some s.id;
  share_created_at = some (unix s.created_at);
  token_type = none;
  refresh_token_id = none;
}

-- The token in the cookie that an anonymous creator gets.
pub owner_claims : Share → Claims
unfolding share_claims
owner_claims s = let claims = share_claims s in record claims { token_type = some "shareOwner" }

-- `security?.maxViews && security.maxViews <= share.views`
unfoldable pub is_views_exceeded : Share → Bool
is_views_exceeded s = elim s.security [
  | none ↦ false
  | some sec ↦ elim (truthy_num sec.max_views) [ none ↦ false | some n ↦ leb n s.views ]
]

unfoldable pub same_time : Option ℕ → ℕ → Bool
same_time none t = false
same_time (some u) t = eqb u t

unfoldable pub names_share : Claims → Share → Bool
unfolding same_time
names_share claims s =
    same claims.share_id (some s.id) && same_time claims.share_created_at (unix s.created_at)

module _ (env : Env) where
  -- `tokenOptions.expiresIn`
  unfoldable pub lifetime : Share → Option ℤ
  lifetime s = if is_never s.expiration then none else some (seconds_until s.expiration env.now)

  unfoldable pub generate_share_token : String → App String
  unfolding lifetime share_claims
  generate_share_token share_id = do
    found ← gets (λ w. find_share w share_id)
    s ← or_throw null_dereference found
    pure (env.sign (share_claims s) (unix env.now) (lifetime s))

  check_hash : String → Option String → App (Unit {0})
  check_hash hash none =
      throw (forbidden "This share is password protected" "share_password_required")
  check_hash hash (some given) =
      throw_if (not (env.verify_hash hash given)) (forbidden "Wrong password" "wrong_password")

  pub check_password : Option ShareSecurity → Option String → App (Unit {0})
  unfolding check_hash
  check_password none given w = pure tt w
  check_password (some sec) given w = elim (truthy sec.password) [
    | none ↦ pure tt w
    | some hash ↦ check_hash hash (truthy given) w
  ]

  pub get_share_token : String → Option String → App String
  unfolding generate_share_token increase_view_count check_password is_views_exceeded
  get_share_token share_id password = do
    found ← gets (λ w. find_share w share_id)
    s ← or_throw null_dereference found
    check_password s.security password
    throw_if (is_views_exceeded s) (forbidden "Maximum views exceeded" "share_max_views_exceeded")
    token ← generate_share_token share_id
    increase_view_count s
    pure token

  accepts : Share → Option String → Bool
  accepts s none = false
  accepts s (some token) = elim (env.verify token (unix env.now) (is_never s.expiration)) [
    | none ↦ false
    | some claims ↦ names_share claims s
  ]

  unfoldable pub verify_share_token : String → Option String → App Bool
  unfolding accepts
  verify_share_token share_id token = do
    found ← gets (λ w. find_share w share_id)
    s ← or_throw null_dereference found
    pure (accepts s token)

  unfoldable pub owner_token : Share → String
  unfolding owner_claims lifetime
  owner_token s = env.sign (owner_claims s) (unix env.now) (lifetime s)

  -- `verifyAnonymousOwnerToken`, on the cookie's value.
  unfoldable pub verify_anonymous_owner_token : Share → Option String → Bool
  verify_anonymous_owner_token s token = elim (truthy token) [
    | none ↦ false
    | some t ↦ elim (env.verify t (unix env.now) (is_never s.expiration)) [
      | none ↦ false
      | some claims ↦ same claims.token_type (some "shareOwner") && names_share claims s
    ]
  ]
