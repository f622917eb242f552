-- ===== src/Guard/Jwt/Users.antt =====
-- Which user the JWT guard puts into a request.
use i_transfer.Base.{
  ℕ, ◌==◌, ◌≡◌, String, true, false, not, Option-cases, none, some, arith, find?, find?-holds,
  truthy, inl, inr,
}
use i_transfer.ApiToken.{get_user_for_token}
use i_transfer.Env.{Env, Claims, unix, at_time, is_alive, Honours}
use i_transfer.Share.Token.{share_claims, lifetime}
use i_transfer.Guard.Jwt.{
  Request, Activation, is_active_with_id, validate, passport_user, extract_bearer_token, jwt_guard,
}
use i_transfer.World.{World, User, Share, ok}

validate-active :
    (w : World) (payload : Claims) (u : User) → validate w payload ≡ some u → u.is_disabled ≡ false
unfolding validate is_active_with_id
validate-active w payload u h =
    ground (arith, find?-holds (is_active_with_id payload.sub) w.users {x = u} h)

passport_user-active :
    (env : Env) (w : World) (req : Request) (u : User)
    → passport_user env w req ≡ some u
    → u.is_disabled ≡ false
unfolding passport_user
passport_user-active env w req u h = grind (arith, validate-active)

get_user_for_token-active :
    (env : Env) (token : String) (w : World) (u : User)
    → (get_user_for_token env token w).0 ≡ ok (some u)
    → u.is_disabled ≡ false
unfolding get_user_for_token
get_user_for_token-active env token w u h = ground arith

-- The user whom the JWT guard finds, by an API token or by an access token, is not disabled.
pub jwt_guard-active :
    (env : Env) (req : Request) (w : World) (a : Activation) (u : User)
    → (jwt_guard env req w).0 ≡ ok a
    → a.user ≡ some u
    → u.is_disabled ≡ false
unfolding jwt_guard
jwt_guard-active env req w a u h k = elim (Option-cases (truthy (extract_bearer_token req))) [
  | inl absent ↦ ground (arith, passport_user-active env w req u)
  | inr (token, present) ↦ ground (arith, get_user_for_token-active env token w u)
]

-- A share token, sent as the access token, is taken for the access token of the first active user:
-- its claims have no `sub`, so `validate` looks for a user without a condition on the id.
pub jwt_guard-share_token :
    (env : Env) (req : Request) (w : World) (s : Share) (t : ℕ) (u : User)
    → Honours env (share_claims s) (unix env.now) (lifetime env s)
    → (env.sign (share_claims s) (unix env.now) (lifetime env s) == "") ≡ false
    → is_alive (unix env.now) (lifetime env s) (unix t) ≡ true
    → req.authorization ≡ none
    → req.cookies "access_token" ≡ some (env.sign (share_claims s) (unix env.now) (lifetime env s))
    → find? (λ x. not x.is_disabled) w.users ≡ some u
    → jwt_guard (at_time t env) req w ≡ (ok (record { allowed = true; user = some u }), w)
unfolding jwt_guard extract_bearer_token passport_user validate is_active_with_id share_claims
jwt_guard-share_token env req w s t u law nonempty alive no_header cookie first =
    ground (arith, law (unix t) false, nonempty, alive, no_header, cookie, first)
