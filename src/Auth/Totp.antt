-- ===== src/Auth/Totp.antt =====
-- The second step of a sign-in: backend/src/auth/authTotp.service.ts. Package otplib is a record of
-- functions, and the secret that it draws is an argument.
pub mod Once
use i_transfer.Auth.Password.{verify_password}
use i_transfer.Auth.Session.{Draw, Answer, assert_user_is_active, open_session}
use i_transfer.Base.{
  ℕ, String, Bool, true, false, not, Option, none, some, ◌==◌, find?, update_where, truthy, ltb,
}
use i_transfer.Env.{Env}
use i_transfer.User.{lift}
use i_transfer.World.{
  World, User, LoginToken, App, pure, gets, modify, throw_if, or_throw, ◌>>=◌, ◌>>◌, bad_request,
  unauthorized, forbidden, null_dereference, find_user, update_user,
}

-- `authenticator.check` and `authenticator.generate`, at the time of the request.
pub record Authenticator : Type 0 where
  pub check : (code secret : String) → Bool
  pub generate : (secret : String) → String

unfoldable pub find_login_token : World → String → Option LoginToken
find_login_token w token = find? (λ t. t.token == token) w.login_tokens

pub use_login_token : String → World → World
use_login_token token w = record w {
  login_tokens =
      update_where (λ t. t.token == token) (λ t. record t { used = true }) w.login_tokens;
}

module _ (env : Env) (totp : Authenticator) where
  unfoldable pub sign_in_totp : Draw → (login_token code : String) → App Answer
  sign_in_totp draw login_token code = do
    found ← gets (λ w. find_login_token w login_token)
    t ← or_throw (unauthorized "Invalid login token") found
    throw_if t.used (unauthorized "Invalid login token")
    throw_if (ltb t.expires_at env.now) (unauthorized "Login token expired")
    owner ← gets (λ w. find_user w t.user_id)
    u ← or_throw null_dereference owner
    assert_user_is_active u
    secret ← or_throw (bad_request "TOTP is not enabled") (truthy u.totp_secret)
    throw_if (not (totp.check code secret)) (bad_request "Invalid code")
    modify (use_login_token t.token)
    open_session env draw u none

  -- The password, asked for again.
  confirm : User → String → App (Unit {0})
  confirm u password = do
    valid ← lift (verify_password env u password)
    throw_if (not valid) (forbidden "Invalid password" "Forbidden")

  -- The row of the user, read again.
  fresh_row : User → App User
  fresh_row u = do found ← gets (λ w. find_user w u.id); or_throw null_dereference found

  unfoldable pub enable_totp : (secret : String) → User → String → App String
  unfolding confirm fresh_row
  enable_totp secret u password = do
    confirm u password
    row ← fresh_row u
    throw_if row.totp_verified (bad_request "TOTP is already enabled")
    _ ← update_user u.id (λ u. record u { totp_enabled = true; totp_secret = some secret })
    pure secret

  -- The code must be the one of the moment.
  expect_code : String → User → String → App (Unit {0})
  expect_code missing row code = do
    secret ← or_throw (bad_request missing) (truthy row.totp_secret)
    throw_if (not (code == totp.generate secret)) (bad_request "Invalid code")

  unfoldable pub verify_totp : User → (password code : String) → App Bool
  unfolding confirm fresh_row expect_code
  verify_totp u password code = do
    confirm u password
    row ← fresh_row u
    expect_code "TOTP is not in progress" row code
    _ ← update_user u.id (λ u. record u { totp_verified = true })
    pure true

  unfoldable pub disable_totp : User → (password code : String) → App Bool
  unfolding confirm fresh_row expect_code
  disable_totp u password code = do
    confirm u password
    row ← fresh_row u
    expect_code "TOTP is not enabled" row code
    _ ←
        update_user u.id
          (λ u. record u { totp_verified = false; totp_enabled = false; totp_secret = none })
    pure true
