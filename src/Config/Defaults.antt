-- ===== src/Config/Defaults.antt =====
-- The built-in settings of backend/src/config/config-defaults.ts: for each category its variables,
-- with their types and default values. The only variable with a value of its own is the secret that
-- signs the tokens, which is drawn at random and is an argument.
use i_transfer.Base.{ℕ, String, Option, none, some, List, [], ◌∷◌, if◌then◌else◌}
use i_transfer.Text.{codes, split_units}
use i_transfer.File.Name.{name_eq}

-- `ConfigVariableDefinition`, less the marks that the service does not read.
pub record Definition : Type 0 where
  pub name : String
  pub type : String
  pub default_value : Option String
  pub value : Option (List ℕ)

abbrev built_in : (name type default : String) → Definition
built_in name type default = record {
  name = name;
  type = type;
  default_value = some default;
  value = none;
}

abbrev general_variables : List Definition
general_variables =
    built_in "appName" "string" "Mediapult Transfer"
    ∷ built_in "appUrl" "string" "http://localhost:3000"
    ∷ built_in "secureCookies" "boolean" "false"
    ∷ built_in "showHomePage" "boolean" "true"
    ∷ built_in "sessionDuration" "timespan" "3 months"
    ∷ []

abbrev share_variables : List Definition
share_variables =
    built_in "allowRegistration" "boolean" "true"
    ∷ built_in "allowUnauthenticatedShares" "boolean" "false"
    ∷ built_in "maxExpiration" "timespan" "0 days"
    ∷ built_in "defaultExpiration" "timespan" "7 days"
    ∷ built_in "shareIdLength" "number" "8"
    ∷ built_in "maxSize" "filesize" "1000000000"
    ∷ built_in "zipCompressionLevel" "number" "9"
    ∷ built_in "chunkSize" "filesize" "10000000"
    ∷ built_in "autoOpenShareModal" "boolean" "false"
    ∷ []

abbrev storage_variables : List Definition
storage_variables = built_in "localUploadPath" "string" "" ∷ []

abbrev cache_variables : List Definition
cache_variables =
    built_in "redis-enabled" "boolean" "false"
    ∷ built_in "redis-url" "string" "redis://pingvin-redis:6379"
    ∷ built_in "ttl" "number" "60"
    ∷ built_in "maxItems" "number" "1000"
    ∷ []

abbrev email_variables : List Definition
email_variables =
    built_in "enableShareEmailRecipients" "boolean" "false"
    ∷ built_in "shareRecipientsSubject" "string" "Files shared with you"
    ∷ built_in "shareRecipientsMessage" "text"
        "Hey!\n\n{creator} ({creatorEmail}) shared some files with you. You can view or download the files with this link: {shareUrl}\n\nThe share will expire {expires}.\n\nNote: {desc}\n\nShared securely with Mediapult Transfer"
    ∷ built_in "reverseShareSubject" "string" "Reverse share link used"
    ∷ built_in "reverseShareMessage" "text"
        "Hey!\n\nA share was just created with your reverse share link: {shareUrl}\n\nShared securely with Mediapult Transfer"
    ∷ built_in "resetPasswordSubject" "string" "Mediapult Transfer password reset"
    ∷ built_in "resetPasswordMessage" "text"
        "Hey!\n\nYou requested a password reset. Click this link to reset your password: {url}\nThe link expires in an hour.\n\nMediapult Transfer"
    ∷ built_in "inviteSubject" "string" "Mediapult Transfer invite"
    ∷ built_in "inviteMessage" "text"
        "Hey!\n\nYou were invited to Mediapult Transfer. Click this link to accept the invite: {url}\n\nYou can use the email \"{email}\" and the password \"{password}\" to sign in.\n\nMediapult Transfer"
    ∷ []

abbrev smtp_variables : List Definition
smtp_variables =
    built_in "enabled" "boolean" "false"
    ∷ built_in "allowUnauthorizedCertificates" "boolean" "false"
    ∷ built_in "host" "string" ""
    ∷ built_in "port" "number" "0"
    ∷ built_in "email" "string" ""
    ∷ built_in "username" "string" ""
    ∷ built_in "password" "string" ""
    ∷ []

abbrev ldap_variables : List Definition
ldap_variables =
    built_in "enabled" "boolean" "false"
    ∷ built_in "url" "string" ""
    ∷ built_in "bindDn" "string" ""
    ∷ built_in "bindPassword" "string" ""
    ∷ built_in "searchBase" "string" ""
    ∷ built_in "searchQuery" "string" ""
    ∷ built_in "adminGroups" "string" ""
    ∷ built_in "fieldNameMemberOf" "string" "memberOf"
    ∷ built_in "fieldNameEmail" "string" "userPrincipalName"
    ∷ []

abbrev oauth_variables : List Definition
oauth_variables =
    built_in "allowRegistration" "boolean" "true"
    ∷ built_in "ignoreTotp" "boolean" "true"
    ∷ built_in "disablePassword" "boolean" "false"
    ∷ built_in "github-enabled" "boolean" "false"
    ∷ built_in "github-clientId" "string" ""
    ∷ built_in "github-clientSecret" "string" ""
    ∷ built_in "google-enabled" "boolean" "false"
    ∷ built_in "google-clientId" "string" ""
    ∷ built_in "google-clientSecret" "string" ""
    ∷ built_in "microsoft-enabled" "boolean" "false"
    ∷ built_in "microsoft-tenant" "string" "common"
    ∷ built_in "microsoft-clientId" "string" ""
    ∷ built_in "microsoft-clientSecret" "string" ""
    ∷ built_in "discord-enabled" "boolean" "false"
    ∷ built_in "discord-limitedGuild" "string" ""
    ∷ built_in "discord-limitedUsers" "string" ""
    ∷ built_in "discord-clientId" "string" ""
    ∷ built_in "discord-clientSecret" "string" ""
    ∷ built_in "oidc-enabled" "boolean" "false"
    ∷ built_in "oidc-discoveryUri" "string" ""
    ∷ built_in "oidc-signOut" "boolean" "false"
    ∷ built_in "oidc-scope" "string" "openid email profile"
    ∷ built_in "oidc-usernameClaim" "string" ""
    ∷ built_in "oidc-rolePath" "string" ""
    ∷ built_in "oidc-roleGeneralAccess" "string" ""
    ∷ built_in "oidc-roleAdminAccess" "string" ""
    ∷ built_in "oidc-clientId" "string" ""
    ∷ built_in "oidc-clientSecret" "string" ""
    ∷ []

abbrev s3_variables : List Definition
s3_variables =
    built_in "enabled" "boolean" "false"
    ∷ built_in "endpoint" "string" ""
    ∷ built_in "region" "string" ""
    ∷ built_in "bucketName" "string" ""
    ∷ built_in "bucketPath" "string" ""
    ∷ built_in "key" "string" ""
    ∷ built_in "secret" "string" ""
    ∷ built_in "useChecksum" "boolean" "true"
    ∷ []

abbrev legal_variables : List Definition
legal_variables =
    built_in "enabled" "boolean" "false"
    ∷ built_in "imprintText" "text" ""
    ∷ built_in "imprintUrl" "string" ""
    ∷ built_in "privacyPolicyText" "text" ""
    ∷ built_in "privacyPolicyUrl" "string" ""
    ∷ []

-- `configVariables`
variable_definitions : (jwt_secret : List ℕ) → List (String × List Definition)
variable_definitions jwt_secret =
    (
      "internal",
      record { name = "jwtSecret"; type = "string"; default_value = none; value = some jwt_secret }
          ∷ [],
    )
    ∷ ("general", general_variables)
    ∷ ("share", share_variables)
    ∷ ("storage", storage_variables)
    ∷ ("cache", cache_variables)
    ∷ ("email", email_variables)
    ∷ ("smtp", smtp_variables)
    ∷ ("ldap", ldap_variables)
    ∷ ("oauth", oauth_variables)
    ∷ ("s3", s3_variables)
    ∷ ("legal", legal_variables)
    ∷ []

find_category : List ℕ → List (String × List Definition) → List Definition
find_category category [] = []
find_category category ((name, variables) ∷ rest) =
    if name_eq (codes name) category then variables else find_category category rest

find_variable : List ℕ → List Definition → Option Definition
find_variable name [] = none
find_variable name (v ∷ rest) =
    if name_eq (codes v.name) name then some v else find_variable name rest

definition_at : (jwt_secret : List ℕ) → List (List ℕ) → Option Definition
unfolding find_category find_variable variable_definitions
definition_at jwt_secret (category ∷ name ∷ rest) =
    find_variable name (find_category category (variable_definitions jwt_secret))
definition_at jwt_secret _ = none

-- `getConfigVariableDefinition`
unfoldable pub get_config_variable_definition : (jwt_secret key : List ℕ) → Option Definition
unfolding definition_at
get_config_variable_definition jwt_secret key = definition_at jwt_secret (split_units b'.' key)
