-- ===== src/Share/Edit.antt =====
-- `updateExpiration`, `updateName`, `updatePassword`, `updatePublicUpload` and `updateVersioning` of
-- backend/src/share/share.service.ts.
use i_transfer.Base.{ℕ, String, Bool, Option, none, some, List, truthy, is_some, if◌then◌else◌}
use i_transfer.Env.{Env}
use i_transfer.Share.Expiration.{RelativeDate, resolve_expiration_date}
use i_transfer.Text.{trim, or_null}
use i_transfer.World.{Share, ShareSecurity, App, pure, ◌>>=◌, find_share, update_share}

unfoldable pub update_expiration : Env → String → Option RelativeDate → App Share
update_expiration env id expiration = do
  t ← λ w. (resolve_expiration_date env expiration, w)
  update_share id (λ s. record s { expiration = t })

-- `name?.trim() || null`
trimmed : Option (List ℕ) → Option (List ℕ)
trimmed none = none
trimmed (some name) = or_null (trim name)

unfoldable pub update_name : String → Option (List ℕ) → App Share
unfolding trimmed
update_name id name = update_share id (λ s. record s { name = trimmed name })

-- `security: { upsert: { create: { password }, update: { password } } }`
upsert_password : String → Option ShareSecurity → Option ShareSecurity
upsert_password hash none = some (record { password = some hash; max_views = none })
upsert_password hash (some sec) = some (record sec { password = some hash })

-- Without a password the whole security row is deleted, if there is one.
drop_security : Option Share → String → App (Option Share)
drop_security none id = pure none
drop_security (some share) id =
    if is_some share.security
    then (do s ← update_share id (λ s. record s { security = none }); pure (some s))
    else pure (some share)

unfoldable pub update_password : Env → String → Option String → App (Option Share)
unfolding drop_security upsert_password
update_password env id password w = elim (truthy password) [
  | none ↦ drop_security (find_share w id) id w
  | some p ↦
      (update_share id (λ s. record s { security = upsert_password (env.hash p) s.security })
          >>= λ s. pure (some s))
        w
]

unfoldable pub update_public_upload : String → Bool → App Share
update_public_upload id allow = update_share id (λ s. record s { allow_public_upload = allow })

unfoldable pub update_versioning : String → Bool → App Share
update_versioning id allow = update_share id (λ s. record s { allow_versioning = allow })
