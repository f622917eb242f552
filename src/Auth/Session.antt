-- ===== src/Auth/Session.antt =====
-- Sessions: `createAccessToken`, `createRefreshToken`, `createLoginToken`, `generateToken`,
-- `refreshAccessToken`, `signOut` and `assertUserIsActive` of backend/src/auth/auth.service.ts. The
-- identifiers and tokens that the database draws are arguments, and belong to no other row.
pub mod Tokens
use i_transfer.Base.{
  ℕ, String, Bool, true, false, not, ◌&&◌, ◌||◌, Option, none, some, List, ◌∷◌, ◌==◌, ℤ, pos, find?,
  delete_where, truthy, is_some, ltb, if◌then◌else◌,
}
use i_transfer.Env.{Env, Claims, Timespan, minutes, unix}
use i_transfer.World.{
  World, User, RefreshToken, LoginToken, App, pure, throw, gets, modify, throw_if, or_throw, ◌>>=◌,
  ◌>>◌, unauthorized, null_dereference, find_user,
}

-- What is drawn for one sign-in.
pub record Draw : Type 0 where
  pub refresh_token_id : String
  pub refresh_token : String
  pub login_token : String

-- What a sign-in answers: the two tokens of a session, or a token for the second step.
pub data Answer : Type 0 where
  session : (access_token refresh_token : String) → Answer
  second_step : (login_token : String) → Answer

abbrev pub assert_user_is_active : User → App (Unit {0})
assert_user_is_active u = throw_if u.is_disabled (unauthorized "Account is disabled")

pub access_claims : User → String → Claims
access_claims u refresh_token_id = record {
  sub = some u.id;
  share_id = none;
  share_created_at = none;
  token_type = none;
  refresh_token_id = some refresh_token_id;
}

-- `15min`, in seconds.
abbrev pub access_lifetime : Option ℤ
access_lifetime = some (pos 900)

module _ (env : Env) where
  unfoldable pub create_access_token : User → String → App String
  unfolding access_claims
  create_access_token u refresh_token_id = do
    assert_user_is_active u
    pure (env.sign (access_claims u refresh_token_id) (unix env.now) access_lifetime)

  unfoldable pub create_refresh_token : Draw → String → Option String → App (Unit {0})
  create_refresh_token draw user_id id_token = modify (λ w. record w {
    refresh_tokens =
        record {
          id = draw.refresh_token_id;
          token = draw.refresh_token;
          expires_at = env.add env.now env.settings.session_duration;
          user_id = user_id;
          oauth_id_token = id_token;
        }
        ∷ w.refresh_tokens;
  })

  unfoldable pub create_login_token : Draw → String → App (Unit {0})
  create_login_token draw user_id = modify (λ w. record w {
    login_tokens =
        record {
          token = draw.login_token;
          expires_at = env.add env.now (record { value = 5; unit = minutes });
          user_id = user_id;
          used = false;
        }
        ∷ w.login_tokens;
  })

  -- A session: a refresh token and an access token that names it.
  unfoldable pub open_session : Draw → User → Option String → App Answer
  unfolding create_refresh_token create_access_token
  open_session draw u id_token = do
    create_refresh_token draw u.id id_token
    access_token ← create_access_token u draw.refresh_token_id
    pure (session access_token draw.refresh_token)

  -- `user.totpVerified && !(oauth && oauth.ignoreTotp)`
  pub needs_second_step : User → Bool → Bool
  needs_second_step u by_oauth = u.totp_verified && not (by_oauth && env.settings.ignore_totp)

  -- `generateToken`; `oauth` holds `oauth?.idToken` where the sign-in came from a provider.
  unfoldable pub generate_token : Draw → User → Option (Option String) → App Answer
  unfolding open_session create_login_token needs_second_step
  generate_token draw u oauth = do
    assert_user_is_active u
    if needs_second_step u (is_some oauth)
        then (create_login_token draw u.id >> pure (second_step draw.login_token))
        else open_session draw u (elim oauth [ none ↦ none | some id_token ↦ id_token ])

unfoldable pub find_refresh_token : World → String → Option RefreshToken
find_refresh_token w token = find? (λ t. t.token == token) w.refresh_tokens

-- `prisma.refreshToken.deleteMany({ where: { userId } })`
unfoldable pub end_sessions : String → World → World
end_sessions user_id w = record w {
  refresh_tokens = delete_where (λ t. t.user_id == user_id) w.refresh_tokens;
}

pub refresh_access_token : Env → String → App String
unfolding end_sessions create_access_token
refresh_access_token env token = do
  found ← gets (λ w. find_refresh_token w token)
  t ← or_throw (unauthorized "Unauthorized") found
  throw_if (ltb t.expires_at env.now) (unauthorized "Unauthorized")
  owner ← gets (λ w. find_user w t.user_id)
  u ← or_throw null_dereference owner
  if u.is_disabled
      then (modify (end_sessions u.id) >> throw (unauthorized "Account is disabled"))
      else create_access_token env u t.id

-- `signOut`. `decode` reads the claims of a token without a check; `end_session` is the address at
-- the provider of an ID token where its user is signed out too.
unfoldable pub sign_out :
    (decode : String → Option Claims) (end_session : String → Option String)
    → String
    → App (Option String)
sign_out decode end_session access_token w = elim (decode access_token) [
  | none ↦ pure none w
  | some claims ↦ elim (truthy claims.refresh_token_id) [
    | none ↦ pure none w
    | some id ↦
        let id_token : Option String = elim (find? (λ t. t.id == id) w.refresh_tokens) [
          | none ↦ none
          | some t ↦ t.oauth_id_token
        ] in
        pure (elim id_token [ none ↦ none | some t ↦ end_session t ])
          (record w { refresh_tokens = delete_where (λ t. t.id == id) w.refresh_tokens })
  ]
]
