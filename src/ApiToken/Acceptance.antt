-- ===== src/ApiToken/Acceptance.antt =====
-- Whom an API token stands for: `getUserForToken` of backend/src/apiToken/apiToken.service.ts.
use mathlib.Core.Path.{transport}
use i_transfer.Base.{
  ◌≡◌, refl, ap, sym, ◌∙◌, String, true, false, not, ◌==◌, ◌||◌, Option, none, some, List, [], ◌∷◌,
  Option-cases, Bool-cases, inl, inr, find?, find?-holds, eq_iff, update_where, arith,
}
use i_transfer.ApiToken.{
  api_token_prefix, find_api_token, update_api_token, accept, look_up, by_parts, get_user_for_token,
}
use i_transfer.Env.{Env}
use i_transfer.Text.{split}
use i_transfer.World.{World, User, ApiToken, ok, find_user, Ends, pure, resume}

-- The row of the token's id, with the owner and the secret that is verified, now marked as used.
pub record IsAccepted (env : Env) (w : World) (parts : List String) (u : User) (v : World)
    : Type 0 where
  pub id : String
  pub secret : String
  pub rest : List String
  pub row : ApiToken
  pub parts_are : parts ≡ api_token_prefix ∷ id ∷ secret ∷ rest
  pub found : find_api_token w id ≡ some row
  pub owner : find_user w row.user_id ≡ some u
  pub active : u.is_disabled ≡ false
  pub verified : env.verify_hash row.token_hash secret ≡ true
  pub state_is : v ≡ record w {
    api_tokens =
        update_where
          (λ t. t.id == row.id)
          (λ t. record t { last_used_at = some env.now })
          w.api_tokens;
  }

-- A user comes only with a token that is accepted; without one nothing is written.
abbrev pub IsAnswer : Env → World → List String → Option User → World → Type 0
IsAnswer env w parts none v = v ≡ w
IsAnswer env w parts (some u) v = IsAccepted env w parts u v

found-itself :
    (w : World) (id : String) (t : ApiToken)
    → find_api_token w id ≡ some t
    → find_api_token w t.id ≡ some t
unfolding find_api_token
found-itself w id t found =
    ap (λ x. find? (λ t. t.id == x) w.api_tokens)
      ((eq_iff t.id id).0 (find?-holds (λ t. t.id == id) w.api_tokens found))
    ∙ found

update_api_token-found :
    (w : World) (id : String) (t : ApiToken) (f : ApiToken → ApiToken)
    → find_api_token w id ≡ some t
    → update_api_token t.id f w
      ≡ (ok (f t), record w { api_tokens = update_where (λ r. r.id == t.id) f w.api_tokens })
unfolding update_api_token
update_api_token-found w id t f found = rw (found-itself w id t found, update_api_token) refl

module _ (env : Env) (w : World) (id secret : String) (rest parts : List String)
    (parts_are : parts ≡ api_token_prefix ∷ id ∷ secret ∷ rest) where
  accept-Ends :
      (t : ApiToken) (owner : Option User)
      → find_api_token w id ≡ some t
      → find_user w t.user_id ≡ owner
      → Ends (IsAnswer env w parts) (λ v. v ≡ w) (accept env t owner secret w)
  unfolding accept
  accept-Ends t none found owned = refl
  accept-Ends t (some u) found owned =
      elim (Bool-cases (u.is_disabled || not (env.verify_hash t.token_hash secret))) [
        | inl refused ↦ rw refused refl
        | inr passed ↦ rw passed (
            transport
              (λ i.
                Ends (IsAnswer env w parts) (λ v. v ≡ w)
                  (resume
                    (sym
                      (update_api_token-found w id t (λ r. record r { last_used_at = some env.now })
                        found)
                      i)
                    (λ r. pure (some u))))
              (record {
                id = id;
                secret = secret;
                rest = rest;
                row = t;
                parts_are = parts_are;
                found = found;
                owner = owned;
                active = ground arith;
                verified = ground arith;
                state_is = refl;
              }))
      ]

  look_up-Ends : Ends (IsAnswer env w parts) (λ v. v ≡ w) (look_up env id secret w)
  unfolding look_up
  look_up-Ends = elim (Option-cases (find_api_token w id)) [
    | inl missing ↦ rw (missing, look_up) refl
    | inr (t, found) ↦ rw (found, look_up) (accept-Ends t (find_user w t.user_id) found refl)
  ]

by_parts-Ends :
    (env : Env) (w : World) (parts : List String)
    → Ends (IsAnswer env w parts) (λ v. v ≡ w) (by_parts env parts w)
unfolding by_parts
by_parts-Ends env w [] = refl
by_parts-Ends env w (prefix ∷ []) = refl
by_parts-Ends env w (prefix ∷ id ∷ []) = refl
by_parts-Ends env w (prefix ∷ id ∷ secret ∷ rest) =
    elim (Bool-cases (not (prefix == api_token_prefix) || (id == "" || secret == ""))) [
      | inl refused ↦ rw refused refl
      | inr passed ↦ rw passed (
          look_up-Ends env w id secret rest (prefix ∷ id ∷ secret ∷ rest)
            (ap (λ p. p ∷ id ∷ secret ∷ rest) ((eq_iff prefix api_token_prefix).0 (ground arith))))
    ]

-- A text that comes as an API token stands for a user only where its first three parts are the prefix,
-- the id of a token in the table and a secret that its hash verifies, and that token's user is the user,
-- who is not disabled; the token's time of use is then the only thing that is written. Otherwise
-- nothing is written, whether the answer is no user or an exception.
pub get_user_for_token-IsAnswer :
    (env : Env) (token : String) (w : World)
    → Ends (IsAnswer env w (split b'.' token)) (λ v. v ≡ w) (get_user_for_token env token w)
unfolding get_user_for_token
get_user_for_token-IsAnswer env token w = by_parts-Ends env w (split b'.' token)
