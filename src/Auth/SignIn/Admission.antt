-- ===== src/Auth/SignIn/Admission.antt =====
-- Whom a sign-in admits, and with what.
use i_transfer.Auth.Ldap.{
  Directory, Entry, authenticate_user, bind_entry, is_ldap_username, find_or_create_from_ldap,
}
use i_transfer.Auth.Session.{
  Draw, Answer, access_claims, access_lifetime, session, second_step, generate_token,
  create_login_token, create_refresh_token,
}
use i_transfer.Auth.SignIn.{Credentials, find_meant, passes, by_password, sign_in, sign_in_ldap}
use i_transfer.Base.{
  ◌≡◌, refl, sym, inl, inr, String, Bool, true, false, not, ◌&&◌, Bool-cases, Option-cases, none,
  Option, List, [], ◌∷◌, ap, some, arith, truthy, get_or, is_some,
}
use mathlib.Core.Path.{transport}
use i_transfer.Env.{Env, unix}
use i_transfer.User.{lift}
use i_transfer.World.{
  Ends, Ends-guard, Ends-need, Ends-call, Ends-if, Ends-match, Ends-ok, Ends-weaken, World, User,
  ok, bad_request, unauthorized,
}

-- The answer fits the user: a session has a refresh token of the user, and is given only where no
-- second step is needed; a login token is the user's and leaves the sessions as they are.
abbrev pub Fits : Env → Draw → User → World → Answer → World → Type 0
Fits env draw u w (session access refresh) w' =
    (u.totp_verified ≡ false) × (w' ≡ (create_refresh_token env draw u.id none w).1)
Fits env draw u w (second_step token) w' =
    (u.totp_verified ≡ true) × (w' ≡ (create_login_token env draw u.id w).1)

-- The password is the user's, or the directory's for the entry that the user goes with.
pub data IsKnown (env : Env) (directory : Directory) (id random : String) (c : Credentials)
    (w : World) (u : User) : World → Type 0 where
  by_hash :
      (hash : String)
      → env.settings.disable_password ≡ false
      → find_meant w c ≡ some u
      → truthy u.password ≡ some hash
      → env.verify_hash hash c.password ≡ true
      → IsKnown env directory id random c w u w
  by_directory :
      (entry : Entry) (w1 : World)
      → env.settings.ldap_enabled ≡ true
      → is_ldap_username (get_or (get_or "" c.email) (truthy c.username)) ≡ true
      → directory.connect ≡ true
      → directory.search (get_or (get_or "" c.email) (truthy c.username)) ≡ some (entry ∷ [])
      → directory.bind entry.dn c.password ≡ true
      → find_or_create_from_ldap env directory id random c.username c.email entry w ≡ (ok u, w1)
      → IsKnown env directory id random c w u w1

generate_token-second_step :
    (env : Env) (draw : Draw) (u : User) (w : World)
    → u.is_disabled ≡ false
    → u.totp_verified ≡ true
    → generate_token env draw u none w
      ≡ (ok (second_step draw.login_token), (create_login_token env draw u.id w).1)
unfolding generate_token create_login_token
generate_token-second_step env draw u w active second = rw (active, second)

generate_token-session :
    (env : Env) (draw : Draw) (u : User) (w : World)
    → u.is_disabled ≡ false
    → u.totp_verified ≡ false
    → generate_token env draw u none w ≡ (
      ok (
          session
            (env.sign (access_claims u draw.refresh_token_id) (unix env.now) access_lifetime)
            draw.refresh_token),
      (create_refresh_token env draw u.id none w).1,
    )
unfolding generate_token create_refresh_token
generate_token-session env draw u w active first = rw (active, first)

generate_token-Ends :
    (env : Env) (draw : Draw) (u : User) (w : World)
    → Ends
        (λ answer w'. (u.is_disabled ≡ false) × Fits env draw u w answer w')
        (λ _. Unit {0})
        (generate_token env draw u none w)
unfolding generate_token
generate_token-Ends env draw u w =
    let Good : Answer → World → Type 0 =
      λ answer w'. (u.is_disabled ≡ false) × Fits env draw u w answer w' in
    elim (Bool-cases u.is_disabled) [
      | inl disabled ↦ rw disabled tt
      | inr active ↦ elim (Bool-cases u.totp_verified) [
        | inl second ↦
            transport
              (λ i.
                Ends Good (λ _. Unit {0})
                  (sym (generate_token-second_step env draw u w active second) i))
              (active, (second, refl))
        | inr first ↦
            transport
              (λ i.
                Ends Good (λ _. Unit {0})
                  (sym (generate_token-session env draw u w active first) i))
              (active, (first, refl))
      ]
    ]

by_password_sound :
    (env : Env) (c : Credentials) (w : World) (u : User)
    → by_password env c w ≡ some u
    → (hash : String) × (env.settings.disable_password ≡ false)
      × (find_meant w c ≡ some u)
      × (truthy u.password ≡ some hash)
      × (env.verify_hash hash c.password ≡ true)
unfolding by_password passes
by_password_sound env c w u h = elim (Option-cases (find_meant w c)) [
  | inl nobody ↦ absurd (ground arith)
  | inr (v, meant) ↦ elim (Option-cases (truthy v.password)) [
    | inl no_password ↦ absurd (ground arith)
    | inr (hash, has) ↦
        let same : v ≡ u = ground arith in
        (hash, ground arith, rw (← same) meant, rw (← same) has, ground arith)
  ]
]

bind_entry_sound :
    (directory : Directory) (password : String) (found : Option (List Entry)) (entry : Entry)
    → bind_entry directory password found ≡ some entry
    → (found ≡ some (entry ∷ [])) × (directory.bind entry.dn password ≡ true)
unfolding bind_entry
bind_entry_sound directory password none entry h = absurd (cc)
bind_entry_sound directory password (some []) entry h = absurd (cc)
bind_entry_sound directory password (some (e ∷ f ∷ rest)) entry h = absurd (cc)
bind_entry_sound directory password (some (e ∷ [])) entry h =
    elim (Bool-cases (directory.bind e.dn password)) [
      | inl taken ↦
          let same : e ≡ entry = ground arith in (ap (λ x. some (x ∷ [])) same, rw (← same) taken)
      | inr refused ↦ let nothing = rw refused at h in absurd (cc)
    ]

authenticate_user_sound :
    (directory : Directory) (username password : String) (entry : Entry)
    → authenticate_user directory username password ≡ ok (some entry)
    → (is_ldap_username username ≡ true)
      × (directory.connect ≡ true)
      × (directory.search username ≡ some (entry ∷ []))
      × (directory.bind entry.dn password ≡ true)
unfolding authenticate_user
authenticate_user_sound directory username password entry h = (
  ground arith,
  ground arith,
  (bind_entry_sound directory password (directory.search username) entry (ground arith)).0,
  (bind_entry_sound directory password (directory.search username) entry (ground arith)).1,
)

-- What a sign-in that returns has found.
pub record IsAdmitted (env : Env) (directory : Directory) (id random : String) (draw : Draw)
    (c : Credentials) (w : World) (answer : Answer) (w' : World) : Type 0 where
  pub user : User
  pub before : World
  pub known : IsKnown env directory id random c w user before
  pub active : user.is_disabled ≡ false
  pub fits : Fits env draw user before answer w'

generate_token-IsAdmitted :
    (env : Env) (directory : Directory) (id random : String) (draw : Draw) (c : Credentials)
    (w : World) (u : User) (w1 : World)
    → IsKnown env directory id random c w u w1
    → Ends
        (IsAdmitted env directory id random draw c w)
        (λ _. Unit {0})
        (generate_token env draw u none w1)
generate_token-IsAdmitted env directory id random draw c w u w1 known =
    Ends-weaken (λ answer w'. (u.is_disabled ≡ false) × Fits env draw u w1 answer w')
      (IsAdmitted env directory id random draw c w) (λ _. Unit {0}) (λ _. Unit {0})
      (generate_token env draw u none w1) (generate_token-Ends env draw u w1)
      (λ answer w' (active, fits).
        let admitted : IsAdmitted env directory id random draw c w answer w' = record {
          user = u;
          before = w1;
          known = known;
          active = active;
          fits = fits;
        } in
        admitted)
      (λ w' x. x)

sign_in_ldap-Ends :
    (env : Env) (directory : Directory) (id random : String) (draw : Draw) (c : Credentials)
    (w : World)
    → env.settings.ldap_enabled ≡ true
    → Ends
        (IsAdmitted env directory id random draw c w)
        (λ _. Unit {0})
        (sign_in_ldap env directory id random draw c w)
unfolding sign_in_ldap lift
sign_in_ldap-Ends env directory id random draw c w enabled =
    let name : String = get_or (get_or "" c.email) (truthy c.username) in
    let Any : World → Type 0 = λ _. Unit {0} in
    Ends-call _ Any (lift (authenticate_user directory name c.password) w) _ (λ _. tt)
      λ found w0 bound.
        Ends-need _ Any (unauthorized "Wrong email or password") found w0 _ tt λ entry is_entry.
          Ends-call _ Any
            (find_or_create_from_ldap env directory id random c.username c.email entry w0) _
            (λ _. tt)
            λ u w1 made.
              let answered : authenticate_user directory name c.password ≡ ok found =
                λ i. (bound i).0 in
              let same : w ≡ w0 = λ i. (bound i).1 in
              generate_token-IsAdmitted env directory id random draw c w u w1 (
                let (named, connected, one, bound) =
                  authenticate_user_sound directory name c.password entry
                    (rw (answered, is_entry) refl) in
                by_directory entry w1 enabled named connected one bound (rw (same, made)))

sign_in-Ends :
    (env : Env) (directory : Directory) (id random : String) (draw : Draw) (c : Credentials)
    (w : World)
    → Ends
        (IsAdmitted env directory id random draw c w)
        (λ _. Unit {0})
        (sign_in env directory id random draw c w)
unfolding sign_in
sign_in-Ends env directory id random draw c w =
    let Any : World → Type 0 = λ _. Unit {0} in
    let nameless : Bool = not (is_some (truthy c.email)) && not (is_some (truthy c.username)) in
    Ends-guard _ Any nameless (bad_request "Email or username is required") w _ tt λ _.
      Ends-match _ Any (by_password env c w) _ _ w
        (λ unknown.
          Ends-if _ Any env.settings.ldap_enabled _ _ w
            (λ enabled. sign_in_ldap-Ends env directory id random draw c w enabled) (λ off. tt))
        (λ u found.
          let (hash, on, meant, has, verified) = by_password_sound env c w u found in
          generate_token-IsAdmitted env directory id random draw c w u w
            (by_hash hash on meant has verified))

-- A sign-in that returns has an identifier, and a user who is not disabled; either signing in with a
-- password is on, the user is the one meant and the password passes the check against the stored
-- hash, or LDAP is on, the search of the directory for the name gave one entry, the directory took
-- the password for it, and the user is the account of that entry. A user with a confirmed second factor gets a login token and no session; any other user
-- gets a session with a new refresh token.
pub sign_in-IsAdmitted :
    (env : Env) (directory : Directory) (id random : String) (draw : Draw) (c : Credentials)
    (w : World) (answer : Answer) (w' : World)
    → sign_in env directory id random draw c w ≡ (ok answer, w')
    → IsAdmitted env directory id random draw c w answer w'
sign_in-IsAdmitted env directory id random draw c w answer w' returns =
    Ends-ok _ (λ _. Unit {0}) (sign_in env directory id random draw c w) answer w' returns
      (sign_in-Ends env directory id random draw c w)
