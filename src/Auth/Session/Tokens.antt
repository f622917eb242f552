-- ===== src/Auth/Session/Tokens.antt =====
-- What the access tokens and the refresh tokens are good for.
use i_transfer.Auth.Session.{
  Draw, session, access_claims, access_lifetime, create_access_token, create_refresh_token,
  end_sessions, find_refresh_token, open_session, refresh_access_token,
}
use i_transfer.Base.{
  ◌≡◌, ◌≢◌, String, true, false, not, ℕ, Option, none, some, ltb, ◌+◌, arith, find?-and,
  find?-delete_where_spared, truthy, eq_iff, ◌==◌, if◌then◌else◌,
}
use i_transfer.Env.{Env, Honours, at_time, unix}
use i_transfer.Guard.Jwt.{
  Request, extract_bearer_token, is_active_with_id, jwt_guard, passport_user, validate,
}
use i_transfer.World.{World, User, RefreshToken, ok, throws, unauthorized, find_user}

-- A user who is not disabled gets the session.
pub open_session-ok :
    (env : Env) (draw : Draw) (u : User) (id_token : Option String) (w : World)
    → u.is_disabled ≡ false
    → open_session env draw u id_token w ≡ (
      ok (
          session
            (env.sign (access_claims u draw.refresh_token_id) (unix env.now) access_lifetime)
            draw.refresh_token),
      (create_refresh_token env draw u.id id_token w).1,
    )
unfolding open_session create_refresh_token create_access_token
open_session-ok env draw u id_token w active = rw (active)

validate-active :
    (w : World) (u : User) (id : String)
    → find_user w u.id ≡ some u
    → u.is_disabled ≡ false
    → validate w (access_claims u id) ≡ some u
unfolding validate find_user is_active_with_id access_claims
validate-active w u id found active =
    find?-and (λ v. v.id == u.id) (λ v. not v.is_disabled) w.users found (rw active)

-- An access token is accepted for 900 seconds, and as the token of its user, if the user is still
-- there and not disabled and the request has no bearer token; after that the request stands as one
-- without a user.
pub create_access_token-jwt_guard :
    (env : Env) (u : User) (id access : String) (w0 w0' w : World) (t : ℕ) (req : Request)
    → Honours env (access_claims u id) (unix env.now) access_lifetime
    → create_access_token env u id w0 ≡ (ok access, w0')
    → truthy (some access) ≡ some access
    → req.cookies "access_token" ≡ some access
    → extract_bearer_token req ≡ none
    → find_user w u.id ≡ some u
    → jwt_guard (at_time t env) req w ≡ (
      ok (
          if ltb (unix t) (unix env.now + 900)
          then record { allowed = true; user = some u }
          else record { allowed = env.settings.allow_unauthenticated_shares; user = none }),
      w,
    )
unfolding create_access_token jwt_guard passport_user
create_access_token-jwt_guard env u id access w0 w0' w t req honours made real cookie no_bearer
      found =
    let active : u.is_disabled ≡ false = ground (arith) in
    let signed : env.sign (access_claims u id) (unix env.now) access_lifetime ≡ access =
      ground (arith, active) in
    ground (
      arith,
      active,
      signed,
      honours (unix t) false,
      real,
      cookie,
      no_bearer,
      validate-active w u id found active,
    )

pub end_sessions-find :
    (w : World) (id token : String) (t : RefreshToken)
    → find_refresh_token (end_sessions id w) token ≡ some t
    → t.user_id ≢ id
unfolding end_sessions find_refresh_token
end_sessions-find w id token t found same =
    let spared : (t.user_id == id) ≡ false =
      find?-delete_where_spared (λ x. x.token == token) (λ x. x.user_id == id) w.refresh_tokens
        found in
    ground (arith, spared, (eq_iff t.user_id id).1 same)

-- A refresh token that has not expired, of a user who has been disabled, is refused, and from then on
-- there is no refresh token of that user.
pub refresh_access_token-disabled :
    (env : Env) (w : World) (token : String) (t : RefreshToken) (u : User)
    → find_refresh_token w token ≡ some t
    → ltb t.expires_at env.now ≡ false
    → find_user w t.user_id ≡ some u
    → u.is_disabled ≡ true
    → (refresh_access_token env token w
        ≡ (throws (unauthorized "Account is disabled"), end_sessions u.id w))
      × ((other : String) (row : RefreshToken)
          → find_refresh_token (refresh_access_token env token w).1 other ≡ some row
          → row.user_id ≢ u.id)
unfolding refresh_access_token
refresh_access_token-disabled env w token t u found alive owner disabled =
    let refused : refresh_access_token env token w
        ≡ (throws (unauthorized "Account is disabled"), end_sessions u.id w) =
      ground (arith, found, alive, owner, disabled) in
    (refused, λ other row there. end_sessions-find w u.id other row (rw refused at there))
