-- ===== src/World/Tables.antt =====
-- The tables of backend/prisma/schema.prisma.
use i_transfer.Base.{ℕ, String, Bool, Option, List, ℤ}

pub record User : Type 0 where
  pub id : String
  pub username : String
  pub email : String
  pub password : Option String
  pub is_admin : Bool
  pub is_disabled : Bool
  pub storage_quota_bytes : Option ℕ
  pub ldap_dn : Option String
  pub totp_enabled : Bool
  pub totp_verified : Bool
  pub totp_secret : Option String

pub data StorageProvider : Type 0 where
  local s3 : StorageProvider

pub record ShareSecurity : Type 0 where
  pub password : Option String
  pub max_views : Option ℕ

-- Names are kept as their UTF-16 code units.
pub record Share : Type 0 where
  pub id : String
  pub created_at : ℕ
  pub name : Option (List ℕ)
  pub upload_locked : Bool
  pub allow_public_upload : Bool
  pub allow_versioning : Bool
  pub is_zip_ready : Bool
  pub views : ℕ
  pub expiration : ℕ
  pub description : Option String
  pub removed_reason : Option String
  pub creator_id : Option String
  pub reverse_share_id : Option String
  pub security : Option ShareSecurity
  pub recipients : List String
  pub storage_provider : StorageProvider
  pub local_storage_path : Option String

pub record ReverseShare : Type 0 where
  pub id : String
  pub token : String
  pub share_expiration : ℕ
  pub max_share_size : ℕ
  pub send_email_notification : Bool
  pub remaining_uses : ℤ
  pub simplified : Bool
  pub public_access : Bool
  pub creator_id : String

pub data ScanStatus : Type 0 where
  unscanned clean pending infected error : ScanStatus

pub record File : Type 0 where
  pub id : String
  pub name : List ℕ
  pub size : ℕ
  pub scan_status : ScanStatus
  pub share_id : String

pub record RefreshToken : Type 0 where
  pub id : String
  pub token : String
  pub expires_at : ℕ
  pub user_id : String
  pub oauth_id_token : Option String

pub record LoginToken : Type 0 where
  pub token : String
  pub expires_at : ℕ
  pub user_id : String
  pub used : Bool

pub record ResetPasswordToken : Type 0 where
  pub token : String
  pub expires_at : ℕ
  pub user_id : String

pub record ApiToken : Type 0 where
  pub id : String
  pub name : String
  pub token_hash : String
  pub token_secret : Option String
  pub user_id : String
  pub last_used_at : Option ℕ

-- A directory under the upload root: `path.join(localStoragePath || SHARE_DIRECTORY, share.id)`.
-- A share's id holds letters, digits, `_` and `-` only, so the pair determines the path.
pub record Directory : Type 0 where
  pub root : String
  pub share_id : String

-- A file's place in its directory: `<id>.tmp-chunk` while it is uploaded, and `<id>`. An id is a
-- UUID, so no id ends in `.tmp-chunk`.
pub data Entry : Type 0 where
  tmp_chunk stored : String → Entry

pub record Blob : Type 0 where
  pub directory : Directory
  pub entry : Entry
  pub bytes : List ℕ

-- A call of `scanFileInBackground` that was started.
pub record PendingScan : Type 0 where
  pub share_id : String
  pub directory : Directory
  pub file_id : String
  pub file_name : List ℕ

pub data Mail : Type 0 where
  to_recipient : (email share_id : String) → Mail
  to_reverse_share_creator : (email share_id : String) → Mail
  reset_password : (email token : String) → Mail
  invite : (email password : String) → Mail
