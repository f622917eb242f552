-- ===== src/Auth/Ldap.antt =====
-- `authenticateUser` of backend/src/auth/ldap.service.ts and `findOrCreateFromLDAP` of
-- backend/src/user/user.service.ts. The directory server, behind package ldapts, is a record of
-- functions.
use Prim.Native.String.{◌++◌}
use i_transfer.Base.{
  ℕ, String, Bool, true, false, not, ◌&&◌, ◌||◌, Option, none, some, List, [], ◌∷◌, ◌==◌, find?,
  get_or, is_some, truthy, leb, eqb, length, if◌then◌else◌,
}
use i_transfer.Env.{Env}
use i_transfer.Text.{codes}
use i_transfer.User.{is_taken}
use i_transfer.World.{
  World, User, App, Outcome, ok, throws, pure, gets, modify, throw_if, ◌>>=◌, ◌>>◌, bad_request,
  internal_server_error, update_user,
}

-- An entry of the directory: its name, and the values of the two fields that the settings name, where
-- the entry has such a field.
pub record Entry : Type 0 where
  pub dn : String
  pub groups : Option (List String)
  pub emails : Option (List String)

-- `connect` says whether the connection can be set up; `search` gives the entries of a username, and
-- none for an exception; `bind` says whether the server takes a password for a name. `admin_group` is
-- the setting `ldap.adminGroups`.
pub record Directory : Type 0 where
  pub connect : Bool
  pub search : String → Option (List Entry)
  pub bind : (dn password : String) → Bool
  pub admin_group : String

-- `[a-zA-Z0-9-_.@]`
is_username_char : ℕ → Bool
is_username_char c =
    leb b'a' c && leb c b'z'
    || (leb b'A' c && leb c b'Z'
        || (leb b'0' c && leb c b'9' || (eqb c b'-' || (eqb c b'_' || (eqb c b'.' || eqb c b'@')))))

all_username_chars : List ℕ → Bool
all_username_chars [] = true
all_username_chars (c ∷ cs) = is_username_char c && all_username_chars cs

unfoldable pub is_ldap_username : String → Bool
unfolding is_username_char all_username_chars
is_ldap_username name = not (eqb (length (codes name)) 0) && all_username_chars (codes name)

-- The one entry that a search gave, if the server takes the password for it.
unfoldable pub bind_entry : Directory → String → Option (List Entry) → Option Entry
bind_entry directory password (some (entry ∷ [])) =
    if directory.bind entry.dn password then some entry else none
bind_entry directory password _ = none

-- `authenticateUser`
unfoldable pub authenticate_user : Directory → (username password : String) → Outcome (Option Entry)
unfolding bind_entry
authenticate_user directory username password =
    if not (is_ldap_username username)
    then ok none
    else if directory.connect
    then ok (bind_entry directory password (directory.search username))
    else throws (internal_server_error "LDAP connection failed")

has_group : String → List String → Bool
has_group g [] = false
has_group g (x ∷ xs) = x == g || has_group g xs

unfoldable pub is_ldap_admin : Directory → Entry → Bool
unfolding has_group
is_ldap_admin directory entry = elim entry.groups [
  | none ↦ false
  | some groups ↦ has_group directory.admin_group groups
]

first_of : List String → Option String
first_of [] = none
first_of (x ∷ xs) = truthy (some x)

-- The email of the credentials, or else that of the entry.
unfoldable pub ldap_email : Option String → Entry → Option String
unfolding first_of
ldap_email given entry = elim (truthy given) [
  | some email ↦ some email
  | none ↦ elim entry.emails [ none ↦ none | some emails ↦ first_of emails ]
]

unfoldable pub find_by_dn : World → String → Option User
find_by_dn w dn = find? (λ u. i_transfer.Base.same u.ldap_dn (some dn)) w.users

-- A new account, or an exception where its username or its email is taken.
unfoldable pub insert_user : User → App User
insert_user u = do
  users ← gets (λ w. w.users)
  throw_if (is_taken users u.id (λ u. u.username) (some u.username))
      (bad_request "A user with this username already exists")
  throw_if (is_taken users u.id (λ u. u.email) (some u.email))
      (bad_request "A user with this email already exists")
  modify (λ w. record w { users = u ∷ w.users })
  pure u

-- `prisma.user.upsert`; `id` and `random` are what is drawn.
module _ (env : Env) (directory : Directory) (id random : String) where
  pub upsert_ldap_user : (username email : Option String) → Entry → App User
  unfolding insert_user
  upsert_ldap_user username email entry w = elim (find_by_dn w entry.dn) [
    | some u ↦ update_user u.id (λ u. record u { is_admin = is_ldap_admin directory entry }) w
    | none ↦
        insert_user
          (record {
            id = id;
            username = get_or ("ldap_user_" ++ random) username;
            email = get_or (random ++ "@ldap.local") (ldap_email email entry);
            password = some (env.hash random);
            is_admin = is_ldap_admin directory entry;
            is_disabled = false;
            storage_quota_bytes = none;
            ldap_dn = some entry.dn;
            totp_enabled = false;
            totp_verified = false;
            totp_secret = none;
          })
          w
  ]

  -- `prisma.user.update(…).catch(…)` of one unique column: where the value is taken, or the row is
  -- gone, everything stays as it is.
  set_unique : (User → String) → (String → User → User) → String → User → App User
  set_unique field set value u w = if is_taken w.users u.id field (some value) then (ok u, w) else (
    elim (update_user u.id (set value) w).0 [ ok _ ↦ ok (set value u) | throws e ↦ ok u ],
    (update_user u.id (set value) w).1,
  )

  -- `findOrCreateFromLDAP`
  unfoldable pub find_or_create_from_ldap : (username email : Option String) → Entry → App User
  unfolding upsert_ldap_user set_unique
  find_or_create_from_ldap username email entry = do
    u ← upsert_ldap_user username email entry
    named ←
        if u.username == "ldap_user_" ++ random
        then set_unique (λ u. u.username) (λ v u. record u { username = v }) ("user_" ++ u.id) u
        else pure u
    elim (ldap_email email entry) [
      | none ↦ pure named
      | some value ↦
          if value == named.email
          then pure named
          else set_unique (λ u. u.email) (λ v u. record u { email = v }) value named
    ]
