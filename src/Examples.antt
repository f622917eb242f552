-- ===== src/Examples.antt =====
-- A small backend for the tests and the examples: one user, one completed share with a limit of two
-- views, a second share that is open, and a signing function for one set of claims.
mod Shares
mod Files
mod Users
mod Accounts
mod Migration
mod Scans
mod Uploads
mod Configs
use i_transfer.Base.{
  ℕ, String, Bool, true, false, ◌||◌, Option, none, some, List, [], ◌∷◌, ◌==◌, ◌+◌, ℤ, pos,
  if◌then◌else◌,
}
use i_transfer.Env.{Env, Settings, Timespan, days, hours, Claims, is_alive}
use i_transfer.Guard.Jwt.{Request}
use i_transfer.Share.Expiration.{after}
use i_transfer.Share.Lifecycle.{CreateShare}
use i_transfer.World.{
  World, User, Share, ShareSecurity, ReverseShare, local, Outcome, ok, File, clean,
}

abbrev pub settings : Settings
settings = record {
  allow_unauthenticated_shares = true;
  default_expiration = record { value = 1; unit = days };
  max_expiration = record { value = 7; unit = days };
  max_size = 100;
  chunk_size = 4;
  session_duration = record { value = 1; unit = hours };
  s3_enabled = false;
  smtp_enabled = true;
  share_email_recipients_enabled = true;
  ldap_enabled = false;
  disable_password = false;
  ignore_totp = false;
  local_upload_path = none;
  share_directory = "/data";
}

-- A backend at 10,000 ms that has signed these claims, without an expiration.
abbrev pub env_signing : Claims → Env
env_signing claims = record {
  settings = settings;
  now = 10000;
  add = λ t span. t + span.value;
  hash = λ p. p;
  verify_hash = λ hash p. hash == p;
  sign = λ _ _ _. "token";
  verify = λ token t ignore. if token == "token" then some claims else none;
  deliver = λ _. true;
  delete_objects = λ _. ok tt;
}

abbrev pub alice : User
alice = record {
  id = "alice";
  username = "alice";
  email = "alice@example.org";
  password = none;
  is_admin = true;
  is_disabled = false;
  storage_quota_bytes = none;
  ldap_dn = none;
  totp_enabled = false;
  totp_verified = false;
  totp_secret = none;
}

abbrev pub docs : Share
docs = record {
  id = "docs";
  created_at = 5000;
  name = none;
  upload_locked = true;
  allow_public_upload = true;
  allow_versioning = false;
  is_zip_ready = true;
  views = 0;
  expiration = 0;
  description = none;
  removed_reason = none;
  creator_id = some "alice";
  reverse_share_id = none;
  security = some (record { password = none; max_views = some 2 });
  recipients = "bob@example.org" ∷ [];
  storage_provider = local;
  local_storage_path = none;
}

abbrev pub inbox : Share
inbox = record docs { id = "inbox"; upload_locked = false; is_zip_ready = false }

abbrev pub world : World
world = record {
  users = alice ∷ [];
  shares = docs ∷ inbox ∷ [];
  reverse_shares = [];
  files = [];
  refresh_tokens = [];
  login_tokens = [];
  reset_tokens = [];
  api_tokens = [];
  disk = [];
  locked_share_ids = [];
  outbox = [];
  directories =
      record { root = "/data"; share_id = "docs" }
      ∷ record { root = "/data"; share_id = "inbox" }
      ∷ [];
  migration_jobs = [];
  migration_items = [];
  pending_scans = [];
  update_faults = [];
}

-- A visitor with the token of `docs`.
abbrev pub visitor : Request
visitor = record {
  authorization = none;
  cookies = λ name. if name == "share_docs_token" then some "token" else none;
}

-- A request for a new share that expires in two days.
abbrev pub draft : CreateShare
draft = record {
  id = "draft";
  name = none;
  expiration = some (after (record { value = 2; unit = days }));
  description = none;
  allow_public_upload = false;
  allow_versioning = false;
  recipients = "bob@example.org" ∷ [];
  security = none;
}
