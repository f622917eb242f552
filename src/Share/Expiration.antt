-- ===== src/Share/Expiration.antt =====
-- Expiration dates: `parseRelativeDateToAbsolute` of backend/src/utils/date.util.ts,
-- `resolveExpirationDate` of backend/src/share/share.service.ts, and the test for an expired share
-- that the guards and the jobs make.
use i_transfer.Base.{
  ℕ, ◌≤◌, ◌≡◌, ◌≢◌, ◌↔◌, ◌⊎◌, Bool, not, ◌&&◌, ◌||◌, Option, none, some, arith, ltb, eqb,
  if◌then◌else◌,
}
use i_transfer.Env.{Env, Timespan, is_never}
use i_transfer.World.{Outcome, ok, throws, bad_request, Share}

-- A relative date, `never` or `<value>-<unit>`.
pub data RelativeDate : Type 0 where
  never : RelativeDate
  after : Timespan → RelativeDate

-- `moment(0).toDate()`
abbrev pub epoch : ℕ
epoch = 0

pub parse_relative_date_to_absolute : Env → RelativeDate → ℕ
parse_relative_date_to_absolute env never = epoch
parse_relative_date_to_absolute env (after span) = env.add env.now span

-- `if (max.value !== 0 && …)`
pub exceeds_max_expiration : Env → ℕ → Bool
exceeds_max_expiration env t =
    let max = env.settings.max_expiration in
    not (eqb max.value 0) && (is_never t || ltb (env.add env.now max) t)

-- The date that is asked for, or the default.
pub requested_expiration : Env → Option RelativeDate → ℕ
unfolding parse_relative_date_to_absolute
requested_expiration env (some date) = parse_relative_date_to_absolute env date
requested_expiration env none =
    let default = env.settings.default_expiration in
    if eqb default.value 0 then epoch else env.add env.now default

unfoldable pub resolve_expiration_date : Env → Option RelativeDate → Outcome ℕ
unfolding requested_expiration exceeds_max_expiration
resolve_expiration_date env date =
    let parsed = requested_expiration env date in
    if exceeds_max_expiration env parsed
    then throws (bad_request "Expiration date exceeds maximum expiration date")
    else ok parsed

-- `moment().isAfter(share.expiration) && !moment(share.expiration).isSame(0)`
unfoldable pub is_expired : Env → Share → Bool
is_expired env share = ltb share.expiration env.now && not (is_never share.expiration)

-- What the setting `share.maxExpiration` allows: any date if it is 0, and otherwise a date that is
-- not "never" and not later than the longest allowed from now.
abbrev pub IsAllowed : Env → ℕ → Type 0
IsAllowed env t =
    (env.settings.max_expiration.value ≡ 0)
    ⊎ ((t ≢ 0) × (t ≤ env.add env.now env.settings.max_expiration))

-- The date of a request: "never" is 0, a timespan counts from now, and without a date the settings'
-- default does the same.
abbrev pub IsRequested : Env → Option RelativeDate → ℕ → Type 0
IsRequested env (some never) t = t ≡ 0
IsRequested env (some (after span)) t = t ≡ env.add env.now span
IsRequested env none t =
    ((env.settings.default_expiration.value ≡ 0) × (t ≡ 0))
    ⊎ ((env.settings.default_expiration.value ≢ 0)
        × (t ≡ env.add env.now env.settings.default_expiration))

-- A share gets a date exactly if it is the one that was requested, where 0 stands for "never" and the
-- settings give a default, and the settings allow it: any date if they set no longest time, and
-- otherwise one that is not "never" and not later than the longest time from now.
pub resolve_expiration_date_iff :
    (env : Env) (date : Option RelativeDate) (t : ℕ)
    → (resolve_expiration_date env date ≡ ok t) ↔ (IsRequested env date t × IsAllowed env t)
unfolding resolve_expiration_date
resolve_expiration_date_iff env none t = ground arith
resolve_expiration_date_iff env (some never) t = ground arith
resolve_expiration_date_iff env (some (after span)) t = ground arith
