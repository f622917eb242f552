-- ===== src/Auth/Password.antt =====
-- `requestResetPassword`, `resetPassword`, `updatePassword` and `verifyPassword` of
-- backend/src/auth/auth.service.ts.
pub mod Reset
pub mod Sessions
use i_transfer.Auth.Session.{Draw, create_refresh_token, end_sessions}
use i_transfer.Base.{
  ℕ, String, Bool, true, false, not, ◌&&◌, ◌||◌, Option, none, some, List, [], ◌∷◌, ◌==◌, find?,
  delete_where, is_some, truthy, ltb, if◌then◌else◌,
}
use i_transfer.Email.{send_reset_password_email}
use i_transfer.Env.{Env, Timespan, hours}
use i_transfer.World.{
  World, User, ResetPasswordToken, App, Outcome, ok, throws, pure, throw, gets, modify, throw_if,
  or_throw, ◌>>=◌, ◌>>◌, bad_request, forbidden, null_dereference, find_user, update_user,
}

unfoldable pub find_reset_token : World → String → Option ResetPasswordToken
find_reset_token w token = find? (λ t. t.token == token) w.reset_tokens

pub delete_reset_token : String → World → World
delete_reset_token token w = record w {
  reset_tokens = delete_where (λ t. t.token == token) w.reset_tokens;
}

-- The row of the user's one reset token.
unfoldable pub reset_token_of : World → String → Option ResetPasswordToken
reset_token_of w user_id = find? (λ t. t.user_id == user_id) w.reset_tokens

-- `!resetPasswordToken || resetPasswordToken.user.isDisabled`
pub reset_token_owner : World → String → Option (ResetPasswordToken × User)
reset_token_owner w token = elim (find_reset_token w token) [
  | none ↦ none
  | some t ↦ elim (find_user w t.user_id) [
    | none ↦ none
    | some u ↦ if u.is_disabled then none else some (t, u)
  ]
]

module _ (env : Env) where
  -- The old token goes, and a new one is written. The mail is not waited for.
  renew_reset_token : String → User → App (Unit {0})
  renew_reset_token token u w =
      let w1 : World = elim (reset_token_of w u.id) [
        | none ↦ w
        | some t ↦ delete_reset_token t.token w
      ] in
      let w2 : World = record w1 {
        reset_tokens =
            record {
              token = token;
              expires_at = env.add env.now (record { value = 1; unit = hours });
              user_id = u.id;
            }
            ∷ w1.reset_tokens;
      } in
      (ok tt, (send_reset_password_email env u.email token w2).1)

  unfoldable pub request_reset_password : (token email : String) → App (Unit {0})
  unfolding renew_reset_token
  request_reset_password token email = do
    throw_if env.settings.disable_password (forbidden "Password sign in is disabled" "Forbidden")
    found ← gets (λ w. find? (λ u. u.email == email) w.users)
    elim found [
      | none ↦ pure tt
      | some u ↦
          if u.is_disabled
          then pure tt
          else if is_some (truthy u.ldap_dn)
          then throw (
              bad_request
                "This account can't reset its password here. Please contact your administrator.")
          else renew_reset_token token u
    ]

  set_password : String → String → App (Unit {0})
  set_password user_id password = do
    update_user user_id (λ u. record u { password = some (env.hash password) })
    pure tt

  finish_reset : ResetPasswordToken × User → String → App (Unit {0})
  finish_reset (t, u) new_password = do
    modify (delete_reset_token t.token)
    throw_if (ltb t.expires_at env.now) (bad_request "Token invalid or expired")
    set_password u.id new_password

  unfoldable pub reset_password : (token new_password : String) → App (Unit {0})
  unfolding finish_reset set_password reset_token_owner delete_reset_token
  reset_password token new_password = do
    throw_if env.settings.disable_password (forbidden "Password sign in is disabled" "Forbidden")
    found ← gets (λ w. reset_token_owner w token)
    owner ← or_throw (bad_request "Token invalid or expired") found
    finish_reset owner new_password

  -- `!user.password || argon.verify(user.password, oldPassword)`, which throws where there is no old
  -- password to check.
  pub checks_old_password : User → Option String → Outcome Bool
  checks_old_password u old = elim (truthy u.password) [
    | none ↦ ok true
    | some hash ↦ elim old [
      | none ↦ throws null_dereference
      | some given ↦ ok (env.verify_hash hash given)
    ]
  ]

  unfoldable pub update_password : Draw → User → String → Option String → App (Unit {0})
  unfolding set_password end_sessions create_refresh_token checks_old_password
  update_password draw u new_password old_password = do
    valid ← λ w. (checks_old_password u old_password, w)
    throw_if (not valid) (forbidden "Invalid password" "Forbidden")
    modify (end_sessions u.id)
    set_password u.id new_password
    create_refresh_token env draw u.id none

  -- `verifyPassword`: without a password, and with LDAP, the test is on a promise and holds;
  -- `argon.verify` throws where there is no hash.
  unfoldable pub verify_password : User → String → Outcome Bool
  verify_password u given = elim (truthy u.password) [
    | none ↦ if env.settings.ldap_enabled then ok true else throws null_dereference
    | some hash ↦ ok (env.verify_hash hash given)
  ]
