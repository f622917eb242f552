-- ===== src/Guard/Jwt.antt =====
-- backend/src/auth/guard/jwt.guard.ts, isAdmin.guard.ts and
-- backend/src/auth/strategy/jwt.strategy.ts, which reads the access token from its cookie.
pub mod Users
pub mod Frame
use i_transfer.Base.{
  String, Bool, true, false, not, ◌&&◌, Option, none, some, List, [], ◌∷◌, ◌==◌, find?, truthy,
  is_some, if◌then◌else◌,
}
use i_transfer.ApiToken.{get_user_for_token}
use i_transfer.Env.{Env, Claims, unix}
use i_transfer.Text.{split}
use i_transfer.World.{World, User, App, pure, ◌>>=◌}

-- The parts of a request that the guards read.
pub record Request : Type 0 where
  pub authorization : Option String
  pub cookies : String → Option String

-- `extractBearerToken`
bearer_of : List String → Option String
bearer_of (type ∷ token ∷ rest) = if type == "Bearer" then some token else none
bearer_of _ = none

unfoldable pub extract_bearer_token : Request → Option String
unfolding bearer_of
extract_bearer_token req = elim req.authorization [
  | none ↦ none
  | some header ↦ bearer_of (split b' ' header)
]

-- `{ id: payload.sub, isDisabled: false }`: Prisma drops a condition on `undefined`.
unfoldable pub is_active_with_id : Option String → User → Bool
is_active_with_id none u = not u.is_disabled
is_active_with_id (some id) u = u.id == id && not u.is_disabled

-- `JwtStrategy.validate`
unfoldable pub validate : World → Claims → Option User
validate w payload = find? (is_active_with_id payload.sub) w.users

-- `AuthGuard("jwt")` of @nestjs/passport: the user that `validate` gives for a token that verifies,
-- and `none` for the exception that it throws otherwise.
unfoldable pub passport_user : Env → World → Request → Option User
passport_user env w req = elim (truthy (req.cookies "access_token")) [
  | none ↦ none
  | some token ↦ elim (env.verify token (unix env.now) false) [
    | none ↦ none
    | some payload ↦ validate w payload
  ]
]

-- What `canActivate` leaves: whether the request may pass, and `request.user`.
pub record Activation : Type 0 where
  pub allowed : Bool
  pub user : Option User

with_bearer : Option User → Activation
with_bearer none = record { allowed = false; user = none }
with_bearer (some u) = record { allowed = true; user = some u }

with_cookie : Bool → Option User → Activation
with_cookie fallback none = record { allowed = fallback; user = none }
with_cookie fallback (some u) = record { allowed = true; user = some u }

-- `JwtGuard.canActivate`
unfoldable pub jwt_guard : Env → Request → App Activation
unfolding with_bearer with_cookie
jwt_guard env req w = elim (truthy (extract_bearer_token req)) [
  | some token ↦ (get_user_for_token env token >>= λ found. pure (with_bearer found)) w
  | none ↦ pure (with_cookie env.settings.allow_unauthenticated_shares (passport_user env w req)) w
]

-- `AdministratorGuard.canActivate`
unfoldable pub administrator_guard : Option User → Bool
administrator_guard none = false
administrator_guard (some u) = u.is_admin
