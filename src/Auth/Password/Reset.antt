-- ===== src/Auth/Password/Reset.antt =====
-- What a new password changes.
use i_transfer.Auth.Password.{
  delete_reset_token, find_reset_token, finish_reset, reset_password, reset_token_owner,
  set_password,
}
use i_transfer.Auth.Session.{Draw, generate_token}
use i_transfer.Auth.Ldap.{Directory}
use i_transfer.Auth.SignIn.{Credentials, by_password, find_meant, is_meant, passes, sign_in}
use i_transfer.Base.{
  ◌≡◌, refl, ◌∙◌, eq_refl, ap, sym, String, true, false, none, some, ltb, arith, truthy, ◌==◌,
  is_some, ◌||◌, find?-update_where, find?-delete_where_self, update_where, eq_iff, Option-cases,
  Bool-cases, inl, inr, find?-holds,
}
use i_transfer.Env.{Env}
use i_transfer.World.{
  World, User, ResetPasswordToken, ok, throws, bad_request, find_user, update_user, Ends,
  Ends-guard, Ends-need, Ends-ok, Ends-any, find_user-id,
}

-- The token is there and has not expired, and its user is not disabled.
pub record IsValid (env : Env) (token : String) (w : World) : Type 0 where
  pub row : ResetPasswordToken
  pub user : User
  pub there : find_reset_token w token ≡ some row
  pub in_time : ltb row.expires_at env.now ≡ false
  pub owner : find_user w row.user_id ≡ some user
  pub active : user.is_disabled ≡ false

-- What a reset leaves.
pub after_reset : Env → ResetPasswordToken → User → String → World → World
after_reset env row u password w = record (delete_reset_token row.token w) {
  users =
      update_where (λ v. v.id == u.id) (λ v. record v { password = some (env.hash password) })
        w.users;
}

reset_token_owner_sound :
    (w : World) (token : String) (row : ResetPasswordToken) (u : User)
    → reset_token_owner w token ≡ some (row, u)
    → (find_reset_token w token ≡ some row)
      × (find_user w row.user_id ≡ some u)
      × (u.is_disabled ≡ false)
unfolding reset_token_owner
reset_token_owner_sound w token row u found = elim (Option-cases (find_reset_token w token)) [
  | inl missing ↦ absurd (ground arith)
  | inr (t, there) ↦ elim (Option-cases (find_user w t.user_id)) [
    | inl nobody ↦ absurd (ground arith)
    | inr (v, owner) ↦ elim (Bool-cases v.is_disabled) [
      | inl disabled ↦ absurd (ground arith)
      | inr active ↦
          let same_row : t ≡ row = ground arith in
          let same : v ≡ u = ground arith in
          (rw (← same_row) there, rw (← same_row, ← same) owner, rw (← same) active)
    ]
  ]
]

reset_password-Ends :
    (env : Env) (token password : String) (w : World)
    → Ends (λ _ w'. IsValid env token w) (λ _. Unit {0}) (reset_password env token password w)
unfolding reset_password finish_reset
reset_password-Ends env token password w =
    let Good : Unit {0} → World → Type 0 = λ _ w'. IsValid env token w in
    let Any : World → Type 0 = λ _. Unit {0} in
    Ends-guard Good Any env.settings.disable_password _ w _ tt λ allowed.
      Ends-need Good Any _ (reset_token_owner w token) w _ tt λ (row, u) found.
        let (there, owner, active) = reset_token_owner_sound w token row u found in
        Ends-guard Good Any (ltb row.expires_at env.now) _ (delete_reset_token row.token w) _ tt
          λ in_time.
            let valid : IsValid env token w = record {
              row = row;
              user = u;
              there = there;
              in_time = in_time;
              owner = owner;
              active = active;
            } in
            Ends-any Good Any (set_password env u.id password (delete_reset_token row.token w))
              (λ _ _. valid) (λ _. tt)

reset_password-ok :
    (env : Env) (token password : String) (w : World) (v : IsValid env token w)
    → env.settings.disable_password ≡ false
    → reset_password env token password w ≡ (ok tt, after_reset env v.row v.user password w)
unfolding reset_password finish_reset set_password update_user after_reset reset_token_owner
    delete_reset_token find_user
reset_password-ok env token password w v allowed =
    let named : v.user.id ≡ v.row.user_id = find_user-id w v.row.user_id v.user v.owner in
    ground (arith, named, allowed, v.there, v.in_time, v.owner, v.active)

after_reset-find :
    (env : Env) (token password : String) (w : World) (v : IsValid env token w)
    → find_reset_token (after_reset env v.row v.user password w) token ≡ none
unfolding after_reset find_reset_token delete_reset_token
after_reset-find env token password w v =
    let mine : v.row.token ≡ token =
      (eq_iff v.row.token token).0 (find?-holds (λ t. t.token == token) w.reset_tokens v.there) in
    rw mine (find?-delete_where_self (λ t. t.token == token) w.reset_tokens)

-- A reset token serves once: after a reset that returned, the same token is refused, at any time and
-- with any settings that allow passwords.
pub reset_password-once :
    (env later : Env) (token password password' : String) (w w' : World)
    → reset_password env token password w ≡ (ok tt, w')
    → env.settings.disable_password ≡ false
    → later.settings.disable_password ≡ false
    → reset_password later token password' w'
      ≡ (throws (bad_request "Token invalid or expired"), w')
unfolding reset_password reset_token_owner find_reset_token
reset_password-once env later token password password' w w' returns allowed allowed' =
    let v : IsValid env token w =
      Ends-ok _ (λ _. Unit {0}) (reset_password env token password w) tt w' returns
        (reset_password-Ends env token password w) in
    let left : w' ≡ after_reset env v.row v.user password w =
      ap (λ r. r.1) (sym returns ∙ reset_password-ok env token password w v allowed) in
    let gone : find_reset_token w' token ≡ none =
      ap (λ x. find_reset_token x token) left ∙ after_reset-find env token password w v in
    ground (arith, allowed', gone)

-- The user whom the credentials mean is found with the new hash.
after_reset-meant :
    (env : Env) (row : ResetPasswordToken) (u : User) (password : String) (w : World)
    (c : Credentials)
    → find_meant w c ≡ some u
    → find_meant (after_reset env row u password w) c
      ≡ some (record u { password = some (env.hash password) })
unfolding after_reset find_meant is_meant
after_reset-meant env row u password w c meant = ground (
  arith,
  find?-update_where (is_meant c) (λ v. v.id == u.id)
      (λ v. record v { password = some (env.hash password) }) w.users (λ v. refl),
  meant,
  eq_refl u.id,
)

after_reset-by_password :
    (env : Env) (row : ResetPasswordToken) (u : User) (password : String) (w : World)
    (c : Credentials)
    → env.settings.disable_password ≡ false
    → truthy (some (env.hash password)) ≡ some (env.hash password)
    → env.verify_hash (env.hash password) password ≡ true
    → find_meant w c ≡ some u
    → c.password ≡ password
    → by_password env c (after_reset env row u password w)
      ≡ some (record u { password = some (env.hash password) })
unfolding by_password passes
after_reset-by_password env row u password w c allowed real verifies meant given =
    ground (arith, allowed, after_reset-meant env row u password w c meant, real, verifies, given)

-- With a token that is there and has not expired, of a user who is not disabled, a reset succeeds, and
-- from then on credentials that mean this user and have the new password sign the user in without
-- LDAP.
pub reset_password-sign_in :
    (env : Env) (token password : String) (w : World) (v : IsValid env token w)
    (directory : Directory) (id random : String) (draw : Draw) (c : Credentials)
    → env.settings.disable_password ≡ false
    → truthy (some (env.hash password)) ≡ some (env.hash password)
    → env.verify_hash (env.hash password) password ≡ true
    → find_meant w c ≡ some v.user
    → (is_some (truthy c.email) || is_some (truthy c.username)) ≡ true
    → c.password ≡ password
    → ((reset_password env token password w).0 ≡ ok tt)
      × (sign_in env directory id random draw c (reset_password env token password w).1
          ≡ generate_token env draw
              (record v.user { password = some (env.hash password) })
              none
              (reset_password env token password w).1)
unfolding sign_in
reset_password-sign_in env token password w v directory id random draw c allowed real verifies meant
      named given =
    let done : reset_password env token password w
        ≡ (ok tt, after_reset env v.row v.user password w) =
      reset_password-ok env token password w v allowed in
    let admitted : by_password env c (reset_password env token password w).1
        ≡ some (record v.user { password = some (env.hash password) }) =
      ap (λ r. by_password env c r.1) done
      ∙ after_reset-by_password env v.row v.user password w c allowed real verifies meant given in
    (ap (λ r. r.0) done, ground (arith, named, admitted))
