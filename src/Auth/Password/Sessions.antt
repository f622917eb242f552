-- ===== src/Auth/Password/Sessions.antt =====
-- What a change of the password does to the sessions of its user.
use i_transfer.Auth.Password.{checks_old_password, set_password, update_password}
use i_transfer.Auth.Session.{Draw, create_refresh_token, end_sessions, find_refresh_token}
use i_transfer.Auth.Session.Tokens.{end_sessions-find}
use i_transfer.Base.{
  ◌≡◌, sym, ap, ◌∙◌, inl, inr, String, not, Option, none, some, arith, Bool-cases, find?, ◌==◌,
}
use i_transfer.Env.{Env}
use i_transfer.World.{World, User, RefreshToken, ok, update_user, Ends-guard, Ends-call, Ends-ok}

-- Every session of the user is the new one.
abbrev pub HasOneSession : Draw → String → World → Type 0
HasOneSession draw user_id w =
    (token : String) (row : RefreshToken)
    → find_refresh_token w token ≡ some row
    → row.user_id ≡ user_id
    → row.token ≡ draw.refresh_token

set_password-sessions :
    (env : Env) (user_id password : String) (w : World)
    → (set_password env user_id password w).1.refresh_tokens ≡ w.refresh_tokens
unfolding set_password update_user
set_password-sessions env user_id password w = ground arith

create_refresh_token-HasOneSession :
    (env : Env) (draw : Draw) (u : User) (w0 w : World)
    → w.refresh_tokens ≡ (end_sessions u.id w0).refresh_tokens
    → HasOneSession draw u.id (create_refresh_token env draw u.id none w).1
unfolding create_refresh_token find_refresh_token find?
create_refresh_token-HasOneSession env draw u w0 w ended token row found mine =
    elim (Bool-cases (draw.refresh_token == token)) [
      | inl new ↦ ground (arith, new)
      | inr old ↦
          let there : find_refresh_token (end_sessions u.id w0) token ≡ some row =
            rw (← ended) (ground (arith, old)) in
          absurd (end_sessions-find w0 u.id token row there mine)
    ]

-- After a change of the password that returned, every session of the user is the new one: all the
-- sessions from before are gone.
pub update_password-HasOneSession :
    (env : Env) (draw : Draw) (u : User) (password : String) (old : Option String) (w w' : World)
    → update_password env draw u password old w ≡ (ok tt, w')
    → HasOneSession draw u.id w'
unfolding update_password
update_password-HasOneSession env draw u password old w w' returns =
    let Good : Unit {0} → World → Type 0 = λ _ w'. HasOneSession draw u.id w' in
    let Any : World → Type 0 = λ _. Unit {0} in
    Ends-ok Good Any (update_password env draw u password old w) tt w' returns (
      Ends-call Good Any (checks_old_password env u old, w) _ (λ _. tt)
        λ valid w1 _. Ends-guard Good Any (not valid) _ w1 _ tt λ _.
          Ends-call Good Any (set_password env u.id password (end_sessions u.id w1)) _ (λ _. tt)
            λ _ w2 done. create_refresh_token-HasOneSession env draw u w1 w2 (
              ap (λ r. r.1.refresh_tokens) (sym done)
              ∙ set_password-sessions env u.id password (end_sessions u.id w1)))
