-- ===== src/Auth/SignIn.antt =====
-- `signUp` and `signIn` of backend/src/auth/auth.service.ts.
pub mod Admission
use i_transfer.Auth.Ldap.{
  Directory, Entry, authenticate_user, find_or_create_from_ldap, insert_user,
}
use i_transfer.Auth.Session.{Draw, Answer, generate_token, open_session}
use i_transfer.Base.{
  ℕ, String, Bool, true, false, not, ◌&&◌, ◌||◌, Option, none, some, List, [], ◌∷◌, ◌==◌, find?,
  get_or, is_some, truthy, eqb, length, if◌then◌else◌,
}
use i_transfer.Env.{Env}
use i_transfer.User.{lift}
use i_transfer.World.{
  World, User, App, Outcome, ok, throws, pure, throw, gets, throw_if, or_throw, ◌>>=◌, ◌>>◌,
  bad_request, unauthorized,
}

-- `AuthSignInDTO`
pub record Credentials : Type 0 where
  pub email : Option String
  pub username : Option String
  pub password : String

-- One condition of an `OR`; Prisma leaves a condition on `undefined` out.
abbrev pub has_value : Option String → String → Bool
has_value none x = false
has_value (some v) x = x == v

unfoldable pub is_meant : Credentials → User → Bool
is_meant c u = has_value c.email u.email || has_value c.username u.username

unfoldable pub find_meant : World → Credentials → Option User
find_meant w c = find? (is_meant c) w.users

module _ (env : Env) where
  -- `user?.password && (await argon.verify(user.password, dto.password))`
  unfoldable pub passes : Option User → String → Option User
  passes none password = none
  passes (some u) password = elim (truthy u.password) [
    | none ↦ none
    | some hash ↦ if env.verify_hash hash password then some u else none
  ]

  -- The user whom the password signs in.
  unfoldable pub by_password : Credentials → World → Option User
  by_password c w =
      if env.settings.disable_password then none else passes (find_meant w c) c.password

  module _ (directory : Directory) (id random : String) where
    pub sign_in_ldap : Draw → Credentials → App Answer
    sign_in_ldap draw c = do
      let name = get_or (get_or "" c.email) (truthy c.username)
      found ← lift (authenticate_user directory name c.password)
      entry ← or_throw (unauthorized "Wrong email or password") found
      u ← find_or_create_from_ldap env directory id random c.username c.email entry
      generate_token env draw u none

    unfoldable pub sign_in : Draw → Credentials → App Answer
    unfolding sign_in_ldap by_password passes
    sign_in draw c = do
      throw_if (not (is_some (truthy c.email)) && not (is_some (truthy c.username)))
          (bad_request "Email or username is required")
      found ← gets (by_password c)
      elim found [
        | some u ↦ generate_token env draw u none
        | none ↦
            if env.settings.ldap_enabled
            then sign_in_ldap draw c
            else throw (unauthorized "Wrong email or password")
      ]

  -- `signUp`: the first account of all is an administrator's, unless the caller says otherwise.
  unfoldable pub sign_up :
      (id : String)
      → Draw
      → (email username : String) (password : Option String) → Option Bool
      → App (Answer × User)
  unfolding insert_user
  sign_up id draw email username password is_admin = do
    users ← gets (λ w. w.users)
    u ← insert_user (record {
      id = id;
      username = username;
      email = email;
      password = elim (truthy password) [ none ↦ none | some p ↦ some (env.hash p) ];
      is_admin = get_or (eqb (length users) 0) is_admin;
      is_disabled = false;
      storage_quota_bytes = none;
      ldap_dn = none;
      totp_enabled = false;
      totp_verified = false;
      totp_secret = none;
    })
    answer ← open_session env draw u none
    pure (answer, u)
