-- ===== src/Env.antt =====
-- What the backend is given: the settings of backend/src/config/config.service.ts, the time, and
-- the packages that it calls (argon2, jsonwebtoken behind @nestjs/jwt, moment).
use i_transfer.Base.{
  ℕ, ◌+◌, ◌-◌, ◌/◌, ◌≡◌, String, Bool, true, ◌||◌, Option, none, some, ℤ, pos, negsuc, neg, ltb,
  leb, eqb, if◌then◌else◌,
}
use i_transfer.World.{Mail, Outcome}

pub data TimeUnit : Type 0 where
  minutes hours days weeks months years : TimeUnit

-- `Timespan` of backend/src/utils/date.util.ts.
pub record Timespan : Type 0 where
  pub value : ℕ
  pub unit : TimeUnit

-- The claims that the code reads from its tokens; a claim that a token does not have is `none`. The
-- email and the role, which an access token also carries, are read by nothing in the backend.
pub record Claims : Type 0 where
  pub sub : Option String
  pub share_id : Option String
  pub share_created_at : Option ℕ
  pub token_type : Option String
  pub refresh_token_id : Option String

pub record Settings : Type 0 where
  pub allow_unauthenticated_shares : Bool
  pub default_expiration : Timespan
  pub max_expiration : Timespan
  pub max_size : ℕ
  pub chunk_size : ℕ
  pub session_duration : Timespan
  pub s3_enabled : Bool
  pub smtp_enabled : Bool
  pub share_email_recipients_enabled : Bool
  pub ldap_enabled : Bool
  pub disable_password : Bool
  pub ignore_totp : Bool
  pub local_upload_path : Option String
  pub share_directory : String

-- `add t span` is `moment(t).add(span.value, span.unit)`. `sign` takes the claims, the time of issue
-- in seconds and `expiresIn`; `verify` takes a token, the time in seconds and `ignoreExpiration`,
-- and `none` stands for an exception. Both use the secret `internal.jwtSecret`. `deliver` says
-- whether the mail server takes a mail, and `delete_objects` how the deletion of a share's objects
-- in the S3 bucket ends.
pub record Env : Type 0 where
  pub settings : Settings
  pub now : ℕ
  pub add : ℕ → Timespan → ℕ
  pub hash : String → String
  pub verify_hash : String → String → Bool
  pub sign : Claims → ℕ → Option ℤ → String
  pub verify : String → ℕ → Bool → Option Claims
  pub deliver : Mail → Bool
  pub delete_objects : String → Outcome (Unit {0})

-- `moment(t).unix()`
abbrev pub unix : ℕ → ℕ
unix t = t / 1000

-- `moment(0).isSame(t)`: the expiration date of a share that never expires.
abbrev pub is_never : ℕ → Bool
is_never t = eqb t 0

-- `moment(t).diff(now, "seconds")`, which rounds towards zero.
abbrev pub seconds_until : ℕ → ℕ → ℤ
seconds_until t now = if leb now t then pos ((t - now) / 1000) else neg ((now - t) / 1000)

-- The same backend at another time.
abbrev pub at_time : ℕ → Env → Env
at_time t env = record env { now = t }

-- Whether a token issued at `iat` with this `expiresIn` is still accepted at a time, in seconds.
abbrev pub is_alive : ℕ → Option ℤ → ℕ → Bool
is_alive iat none t = true
is_alive iat (some (pos n)) t = ltb t (iat + n)
is_alive iat (some (negsuc n)) t = ltb (t + n + 1) iat

-- What jsonwebtoken documents of `sign` and `verify`, at the claims that were signed.
abbrev pub Honours : Env → Claims → ℕ → Option ℤ → Type 0
Honours env claims iat life =
    (t : ℕ) (ignore : Bool)
    → env.verify (env.sign claims iat life) t ignore
      ≡ (if ignore || is_alive iat life t then some claims else none)
