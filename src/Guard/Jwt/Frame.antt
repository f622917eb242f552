-- ===== src/Guard/Jwt/Frame.antt =====
-- What the JWT guard writes.
use i_transfer.Base.{ap, List, find?, ◌==◌, ◌≡◌, String, arith, inl, inr, Option-cases, truthy}
use i_transfer.ApiToken.{get_user_for_token}
use i_transfer.Env.{Env}
use i_transfer.Guard.Jwt.{Request, jwt_guard, extract_bearer_token}
use i_transfer.World.{World, Share, find_share}

abbrev pub KeepsAllButApiTokens : World → World → Type 0
KeepsAllButApiTokens w w' = w' ≡ record w { api_tokens = w'.api_tokens }

get_user_for_token-KeepsAllButApiTokens :
    (env : Env) (token : String) (w : World)
    → KeepsAllButApiTokens w (get_user_for_token env token w).1
unfolding get_user_for_token
get_user_for_token-KeepsAllButApiTokens env token w = ground arith

pub jwt_guard-KeepsAllButApiTokens :
    (env : Env) (req : Request) (w : World) → KeepsAllButApiTokens w (jwt_guard env req w).1
unfolding jwt_guard
jwt_guard-KeepsAllButApiTokens env req w = elim (Option-cases (truthy (extract_bearer_token req))) [
  | inl absent ↦ ground arith
  | inr (token, present) ↦ ground (arith, get_user_for_token-KeepsAllButApiTokens env token w)
]

pub find_share-jwt_guard :
    (env : Env) (req : Request) (w : World) (id : String)
    → find_share (jwt_guard env req w).1 id ≡ find_share w id
unfolding find_share
find_share-jwt_guard env req w id =
    ap (λ (shares : List Share). find? (λ s. s.id == id) shares)
      (ap (λ (x : World). x.shares) (jwt_guard-KeepsAllButApiTokens env req w))
