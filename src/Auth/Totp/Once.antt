-- ===== src/Auth/Totp/Once.antt =====
-- What the second step of a sign-in takes, and how often a login token serves.
use i_transfer.Auth.Session.{Draw, Answer, create_access_token, create_refresh_token, open_session}
use i_transfer.Auth.Session.Tokens.{open_session-ok}
use i_transfer.Auth.Totp.{Authenticator, find_login_token, sign_in_totp, use_login_token}
use i_transfer.Base.{
  ◌≡◌, refl, ◌∙◌, eq_refl, ap, sym, String, true, false, not, none, some, ltb, arith, truthy, ◌==◌,
  find?-update_where, find?-holds,
}
use i_transfer.Env.{Env}
use i_transfer.World.{
  World, User, LoginToken, ok, throws, unauthorized, find_user, Ends, Ends-guard, Ends-need,
  Ends-ok, Ends-is,
}

-- A login token that was redeemed: the row was there, unused and not expired, its user is not
-- disabled and has a secret that the code fits.
pub record IsRedeemed (env : Env) (totp : Authenticator) (draw : Draw) (token code : String)
    (w : World) (answer : Answer) (w' : World) : Type 0 where
  pub row : LoginToken
  pub user : User
  pub secret : String
  pub there : find_login_token w token ≡ some row
  pub unused : row.used ≡ false
  pub in_time : ltb row.expires_at env.now ≡ false
  pub owner : find_user w row.user_id ≡ some user
  pub active : user.is_disabled ≡ false
  pub has_secret : truthy user.totp_secret ≡ some secret
  pub fits : totp.check code secret ≡ true
  pub opened : open_session env draw user none (use_login_token row.token w) ≡ (ok answer, w')

opens :
    (env : Env) (draw : Draw) (u : User) (w : World)
    → u.is_disabled ≡ false
    → (answer : Answer) × (open_session env draw u none w
        ≡ (ok answer, (create_refresh_token env draw u.id none w).1))
opens env draw u w active = (_, open_session-ok env draw u none w active)

sign_in_totp-Ends :
    (env : Env) (totp : Authenticator) (draw : Draw) (token code : String) (w : World)
    → Ends
        (IsRedeemed env totp draw token code w)
        (λ w'. w' ≡ w)
        (sign_in_totp env totp draw token code w)
unfolding sign_in_totp
sign_in_totp-Ends env totp draw token code w =
    let Good : Answer → World → Type 0 = IsRedeemed env totp draw token code w in
    let Same : World → Type 0 = λ w'. w' ≡ w in
    Ends-need Good Same _ (find_login_token w token) w _ refl λ row there.
      Ends-guard Good Same row.used _ w _ refl λ unused.
        Ends-guard Good Same (ltb row.expires_at env.now) _ w _ refl λ in_time.
          Ends-need Good Same _ (find_user w row.user_id) w _ refl λ u owner.
            Ends-guard Good Same u.is_disabled _ w _ refl λ active.
              Ends-need Good Same _ (truthy u.totp_secret) w _ refl λ secret has.
                Ends-guard Good Same (not (totp.check code secret)) _ w _ refl λ fits.
                  let (answer, opened) = opens env draw u (use_login_token row.token w) active in
                  let redeemed : IsRedeemed env totp draw token code w answer
                      (create_refresh_token env draw u.id none (use_login_token row.token w)).1 =
                    record {
                      row = row;
                      user = u;
                      secret = secret;
                      there = there;
                      unused = unused;
                      in_time = in_time;
                      owner = owner;
                      active = active;
                      has_secret = has;
                      fits = ground (arith, fits);
                      opened = opened;
                    } in
                  Ends-is Good Same _ answer _ opened redeemed

-- The second step that returns has taken a login token that was there, unused and not expired, of a
-- user who is not disabled, and a code that fits the user's secret.
pub sign_in_totp-IsRedeemed :
    (env : Env) (totp : Authenticator) (draw : Draw) (token code : String) (w : World)
    (answer : Answer) (w' : World)
    → sign_in_totp env totp draw token code w ≡ (ok answer, w')
    → IsRedeemed env totp draw token code w answer w'
sign_in_totp-IsRedeemed env totp draw token code w answer w' returns =
    Ends-ok _ (λ w'. w' ≡ w) (sign_in_totp env totp draw token code w) answer w' returns
      (sign_in_totp-Ends env totp draw token code w)

used-find :
    (w : World) (token : String) (row : LoginToken)
    → find_login_token w token ≡ some row
    → find_login_token (use_login_token row.token w) token ≡ some (record row { used = true })
unfolding find_login_token use_login_token
used-find w token row there =
    let mine : (row.token == token) ≡ true =
      find?-holds (λ t. t.token == token) w.login_tokens there in
    let self : (row.token == row.token) ≡ true = eq_refl row.token in
    ground (
      arith,
      find?-update_where (λ t. t.token == token) (λ t. t.token == row.token)
          (λ t. record t { used = true }) w.login_tokens (λ t. refl),
      there,
      self,
    )

-- The session that is opened leaves the login tokens as they are.
open_session-login_tokens :
    (env : Env) (draw : Draw) (u : User) (w w' : World) (answer : Answer) (token : String)
    → u.is_disabled ≡ false
    → open_session env draw u none w ≡ (ok answer, w')
    → find_login_token w' token ≡ find_login_token w token
unfolding open_session create_refresh_token create_access_token find_login_token
open_session-login_tokens env draw u w w' answer token active opened =
    ap (λ r. find_login_token r.1 token) (sym opened ∙ open_session-ok env draw u none w active)

-- A login token serves once: after a second step that returned, the same token is refused, with any
-- code, and at any time.
pub sign_in_totp-once :
    (env later : Env) (totp totp' : Authenticator) (draw draw' : Draw) (token code code' : String)
    (w w' : World) (answer : Answer)
    → sign_in_totp env totp draw token code w ≡ (ok answer, w')
    → sign_in_totp later totp' draw' token code' w'
      ≡ (throws (unauthorized "Invalid login token"), w')
unfolding sign_in_totp
sign_in_totp-once env later totp totp' draw draw' token code code' w w' answer returns =
    let r : IsRedeemed env totp draw token code w answer w' =
      sign_in_totp-IsRedeemed env totp draw token code w answer w' returns in
    let spent : find_login_token w' token ≡ some (record r.row { used = true }) =
      open_session-login_tokens env draw r.user (use_login_token r.row.token w) w' answer token
        r.active r.opened
      ∙ used-find w token r.row r.there in
    rw (spent)
