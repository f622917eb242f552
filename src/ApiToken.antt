-- ===== src/ApiToken.antt =====
-- backend/src/apiToken/apiToken.service.ts. The identifier and the secret that `create` draws are
-- arguments.
pub mod Acceptance
use Prim.Native.String.{◌++◌}
use i_transfer.Base.{
  String, Bool, not, ◌&&◌, ◌||◌, Option, none, some, List, ◌∷◌, ◌==◌, find?, select, update_where,
  delete_where, truthy, if◌then◌else◌, map, ltb, count,
}
use i_transfer.Env.{Env}
use i_transfer.Text.{split}
use i_transfer.World.{
  World, User, ApiToken, App, pure, or_throw, null_dereference, record_not_found, ◌>>◌, find_user,
}

abbrev pub api_token_prefix : String
api_token_prefix = "mtp"

format_token : String → Option String → Option String
format_token id secret = elim (truthy secret) [
  | none ↦ none
  | some s ↦ some (api_token_prefix ++ ("." ++ (id ++ ("." ++ s))))
]

pub find_api_token : World → String → Option ApiToken
find_api_token w id = find? (λ t. t.id == id) w.api_tokens

update_api_token : String → (ApiToken → ApiToken) → App ApiToken
update_api_token id f w = elim (find_api_token w id) [
  | none ↦ or_throw record_not_found none w
  | some t ↦ pure (f t) (record w { api_tokens = update_where (λ t. t.id == id) f w.api_tokens })
]

is_own : String → String → ApiToken → Bool
is_own user_id id t = t.id == id && t.user_id == user_id

module _ (env : Env) where
  pub create : (id secret user_id name : String) → App (ApiToken × Option String)
  create id secret user_id name w =
      let row : ApiToken = record {
        id = id;
        name = name;
        token_hash = env.hash secret;
        token_secret = some secret;
        user_id = user_id;
        last_used_at = none;
      } in
      pure (row, format_token id (some secret)) (record w { api_tokens = row ∷ w.api_tokens })

  -- The tests of `getUserForToken` on a token that was found, with its user.
  accept : ApiToken → Option User → String → App (Option User)
  accept t none secret = or_throw null_dereference none
  accept t (some u) secret =
      if u.is_disabled || not (env.verify_hash t.token_hash secret)
      then pure none
      else (do update_api_token t.id (λ r. record r { last_used_at = some env.now }); pure (some u))

  look_up : String → String → App (Option User)
  look_up id secret w = elim (find_api_token w id) [
    | none ↦ pure none w
    | some t ↦ accept t (find_user w t.user_id) secret w
  ]

  by_parts : List String → App (Option User)
  by_parts (prefix ∷ id ∷ secret ∷ rest) =
      if not (prefix == api_token_prefix) || (id == "" || secret == "")
      then pure none
      else look_up id secret
  by_parts _ = pure none

  unfoldable pub get_user_for_token : String → App (Option User)
  unfolding by_parts look_up accept update_api_token find_api_token
  get_user_for_token token = by_parts (split b'.' token)

pub list : World → String → List (ApiToken × Option String)
list w user_id =
    map (λ t. (t, format_token t.id t.token_secret))
      (select (λ t. t.user_id == user_id) w.api_tokens)

pub rename : (user_id id name : String) → App Bool
rename user_id id name w = pure (ltb 0 (count (is_own user_id id) w.api_tokens)) (record w {
  api_tokens = update_where (is_own user_id id) (λ t. record t { name = name }) w.api_tokens;
})

pub remove : (user_id id : String) → App (Unit {0})
remove user_id id w =
    pure tt (record w { api_tokens = delete_where (is_own user_id id) w.api_tokens })
