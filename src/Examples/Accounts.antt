-- ===== src/Examples/Accounts.antt =====
-- The theorems on sessions, sign-ins and passwords at concrete inputs.
use i_transfer.ApiToken.{get_user_for_token}
use i_transfer.ApiToken.Acceptance.{IsAnswer, get_user_for_token-IsAnswer}
use i_transfer.Text.{split}
use i_transfer.World.{Ends}
use i_transfer.Auth.Ldap.{Directory}
use i_transfer.Auth.Password.{find_reset_token, reset_password, update_password}
use i_transfer.Auth.Password.Reset.{IsValid, reset_password-once, reset_password-sign_in}
use i_transfer.Auth.Password.Sessions.{HasOneSession, update_password-HasOneSession}
use i_transfer.Auth.Session.{
  Draw, Answer, session, access_claims, access_lifetime, create_access_token, end_sessions,
  find_refresh_token, generate_token, refresh_access_token,
}
use i_transfer.Auth.Session.Tokens.{create_access_token-jwt_guard, refresh_access_token-disabled}
use i_transfer.Auth.SignIn.{Credentials, find_meant, sign_in}
use i_transfer.Auth.SignIn.Admission.{IsAdmitted, sign_in-IsAdmitted}
use i_transfer.Auth.Totp.{Authenticator, sign_in_totp}
use i_transfer.Auth.Totp.Once.{IsRedeemed, sign_in_totp-IsRedeemed, sign_in_totp-once}
use i_transfer.Base.{
  ℕ, String, Bool, true, false, ◌||◌, ◌≡◌, ◌≢◌, refl, Option, none, some, List, [], ◌∷◌, ◌==◌, ltb,
  ◌+◌, truthy, is_some, if◌then◌else◌,
}
use i_transfer.Env.{Env, Claims, Honours, at_time, unix}
use i_transfer.Examples.{env_signing, world, alice}
use i_transfer.Guard.Jwt.{Request, extract_bearer_token, jwt_guard}
use i_transfer.World.{
  World, User, LoginToken, RefreshToken, ResetPasswordToken, ok, throws, bad_request, unauthorized,
  find_user,
}

-- A user with a password, and another who is disabled.
abbrev carol : User
carol = record alice {
  id = "carol";
  username = "carol";
  email = "carol@example.org";
  password = some "old";
}

abbrev dave : User
dave = record alice { id = "dave"; username = "dave"; is_disabled = true }

abbrev erin : User
erin = record alice {
  id = "erin";
  username = "erin";
  totp_verified = true;
  totp_secret = some "s3cr3t";
}

abbrev accounts : World
accounts = record world {
  users = carol ∷ dave ∷ erin ∷ [];
  refresh_tokens =
      record {
        id = "r1";
        token = "daves";
        expires_at = 20000;
        user_id = "dave";
        oauth_id_token = none;
      }
      ∷ record {
        id = "r2";
        token = "carols";
        expires_at = 20000;
        user_id = "carol";
        oauth_id_token = none;
      }
      ∷ [];
  login_tokens =
      record { token = "login"; expires_at = 20000; user_id = "erin"; used = false } ∷ [];
  reset_tokens = record { token = "reset"; expires_at = 20000; user_id = "carol" } ∷ [];
}

abbrev claims : Claims
claims = access_claims carol "r2"

-- A backend whose tokens are accepted for their 900 seconds.
abbrev env : Env
env = record (env_signing claims) {
  verify = λ token t ignore.
      if token == "token" then (if ignore || ltb t 910 then some claims else none) else none;
}

abbrev draw : Draw
draw = record { refresh_token_id = "r3"; refresh_token = "fresh"; login_token = "second" }

abbrev directory : Directory
directory = record {
  connect = false;
  search = λ _. none;
  bind = λ _ _. false;
  admin_group = "admins";
}

abbrev old_password : Credentials
old_password = record { email = none; username = some "carol"; password = "old" }

signs_in : sign_in env directory "id" "random" draw old_password accounts ≡ (
  ok (session "token" "fresh"),
  (sign_in env directory "id" "random" draw old_password accounts).1,
)
unfolding sign_in find_meant i_transfer.Base.find? i_transfer.Auth.SignIn.is_meant generate_token
signs_in = refl

sign_in-IsAdmitted_example :
    IsAdmitted env directory "id" "random" draw old_password accounts
      (session "token" "fresh")
      (sign_in env directory "id" "random" draw old_password accounts).1
sign_in-IsAdmitted_example =
    sign_in-IsAdmitted env directory "id" "random" draw old_password accounts
      (session "token" "fresh") (sign_in env directory "id" "random" draw old_password accounts).1
      signs_in

abbrev authenticator : Authenticator
authenticator = record { check = λ code secret. code == "123456"; generate = λ _. "123456" }

redeems : sign_in_totp env authenticator draw "login" "123456" accounts ≡ (
  ok (session "token" "fresh"),
  (sign_in_totp env authenticator draw "login" "123456" accounts).1,
)
unfolding sign_in_totp i_transfer.Auth.Totp.find_login_token i_transfer.Base.find? find_user
    i_transfer.Auth.Session.open_session
redeems = refl

sign_in_totp-IsRedeemed_example :
    IsRedeemed env authenticator draw "login" "123456" accounts
      (session "token" "fresh")
      (sign_in_totp env authenticator draw "login" "123456" accounts).1
sign_in_totp-IsRedeemed_example =
    sign_in_totp-IsRedeemed env authenticator draw "login" "123456" accounts
      (session "token" "fresh") (sign_in_totp env authenticator draw "login" "123456" accounts).1
      redeems

sign_in_totp-once_example :
    sign_in_totp env authenticator draw "login" "654321"
      (sign_in_totp env authenticator draw "login" "123456" accounts).1
    ≡ (
      throws (unauthorized "Invalid login token"),
      (sign_in_totp env authenticator draw "login" "123456" accounts).1,
    )
sign_in_totp-once_example =
    sign_in_totp-once env env authenticator authenticator draw draw "login" "123456" "654321"
      accounts (sign_in_totp env authenticator draw "login" "123456" accounts).1
      (session "token" "fresh") redeems

resets :
    reset_password env "reset" "new" accounts
    ≡ (ok tt, (reset_password env "reset" "new" accounts).1)
unfolding reset_password find_reset_token i_transfer.Base.find? find_user
    i_transfer.World.update_user
resets = refl

reset_password-once_example :
    reset_password env "reset" "newer" (reset_password env "reset" "new" accounts).1 ≡ (
      throws (bad_request "Token invalid or expired"),
      (reset_password env "reset" "new" accounts).1,
    )
reset_password-once_example =
    reset_password-once env env "reset" "new" "newer" accounts
      (reset_password env "reset" "new" accounts).1 resets refl refl

reset_there :
    find_reset_token accounts "reset"
    ≡ some (record { token = "reset"; expires_at = 20000; user_id = "carol" })
unfolding find_reset_token i_transfer.Base.find?
reset_there = refl

find_carol : find_user accounts "carol" ≡ some carol
unfolding find_user i_transfer.Base.find?
find_carol = refl

abbrev valid : IsValid env "reset" accounts
valid = record {
  row = record { token = "reset"; expires_at = 20000; user_id = "carol" };
  user = carol;
  there = reset_there;
  in_time = refl;
  owner = find_carol;
  active = refl;
}

abbrev changed_password : Credentials
changed_password = record { email = none; username = some "carol"; password = "new" }

meant : find_meant accounts changed_password ≡ some carol
unfolding find_meant i_transfer.Base.find? i_transfer.Auth.SignIn.is_meant
meant = refl

reset_password-sign_in_example :
    ((reset_password env "reset" "new" accounts).0 ≡ ok tt)
    × (sign_in env directory "id" "random" draw changed_password
          (reset_password env "reset" "new" accounts).1
        ≡ generate_token env draw
            (record carol { password = some "new" })
            none
            (reset_password env "reset" "new" accounts).1)
reset_password-sign_in_example =
    reset_password-sign_in env "reset" "new" accounts valid directory "id" "random" draw
      changed_password refl refl refl meant refl refl

changes :
    update_password env draw carol "new" (some "old") accounts
    ≡ (ok tt, (update_password env draw carol "new" (some "old") accounts).1)
unfolding update_password i_transfer.World.update_user find_user i_transfer.Base.find?
changes = refl

update_password-HasOneSession_example :
    HasOneSession draw "carol" (update_password env draw carol "new" (some "old") accounts).1
update_password-HasOneSession_example =
    update_password-HasOneSession env draw carol "new" (some "old") accounts
      (update_password env draw carol "new" (some "old") accounts).1 changes

find_dave : find_user accounts "dave" ≡ some dave
unfolding find_user i_transfer.Base.find?
find_dave = refl

daves :
    find_refresh_token accounts "daves"
    ≡ some (record {
      id = "r1";
      token = "daves";
      expires_at = 20000;
      user_id = "dave";
      oauth_id_token = none;
    })
unfolding find_refresh_token i_transfer.Base.find?
daves = refl

refresh_access_token-disabled_example :
    (refresh_access_token env "daves" accounts
      ≡ (throws (unauthorized "Account is disabled"), end_sessions "dave" accounts))
    × ((other : String) (row : RefreshToken)
        → find_refresh_token (refresh_access_token env "daves" accounts).1 other ≡ some row
        → row.user_id ≢ "dave")
refresh_access_token-disabled_example =
    refresh_access_token-disabled env accounts "daves"
      (record {
        id = "r1";
        token = "daves";
        expires_at = 20000;
        user_id = "dave";
        oauth_id_token = none;
      })
      dave daves refl find_dave refl

-- A request with carol's access token.
abbrev request : Request
request = record {
  authorization = none;
  cookies = λ name. if name == "access_token" then some "token" else none;
}

honours : Honours env claims (unix env.now) access_lifetime
honours t ignore = refl

issued : create_access_token env carol "r2" accounts ≡ (ok "token", accounts)
unfolding create_access_token
issued = refl

no_bearer : extract_bearer_token request ≡ none
unfolding extract_bearer_token
no_bearer = refl

create_access_token-jwt_guard_example : jwt_guard (at_time 500000 env) request accounts ≡ (
  ok (
      if ltb (unix 500000) (unix env.now + 900)
      then record { allowed = true; user = some carol }
      else record { allowed = true; user = none }),
  accounts,
)
create_access_token-jwt_guard_example =
    create_access_token-jwt_guard env carol "r2" "token" accounts accounts accounts 500000 request
      honours issued refl refl no_bearer find_carol

-- Carol with an API token, which stands for her.
abbrev with_api_token : World
with_api_token = record accounts {
  api_tokens =
      record {
        id = "t1";
        name = "laptop";
        token_hash = "secret";
        token_secret = none;
        user_id = carol.id;
        last_used_at = none;
      }
      ∷ [];
}

carol_answers : (get_user_for_token env "mtp.t1.secret" with_api_token).0 ≡ ok (some carol)
unfolding get_user_for_token i_transfer.World.find_user i_transfer.Base.find? split
carol_answers = refl

get_user_for_token-IsAnswer_example :
    Ends
      (IsAnswer env with_api_token (split b'.' "mtp.t1.secret"))
      (λ v. v ≡ with_api_token)
      (get_user_for_token env "mtp.t1.secret" with_api_token)
get_user_for_token-IsAnswer_example = get_user_for_token-IsAnswer env "mtp.t1.secret" with_api_token
