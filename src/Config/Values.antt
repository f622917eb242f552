-- ===== src/Config/Values.antt =====
-- The values of configuration variables as texts and as `get` returns them, with the types that a
-- variable may have: the private methods of backend/src/config/config.service.ts that read them.
use i_transfer.Base.{
  ℕ, String, Bool, true, false, ◌&&◌, ◌||◌, Option, none, some, List, [], ◌∷◌, ◌==◌, ℤ, pos, get_or,
  eqb, if◌then◌else◌,
}
use i_transfer.File.Name.{name_eq}
use i_transfer.Text.{codes, split_units}
use i_transfer.Text.Numbers.{parse_int}

-- What `get` returns; a timespan is its number, where none is `NaN`, and its unit.
pub data Parsed : Type 0 where
  text : List ℕ → Parsed
  number : ℤ → Parsed
  boolean : Bool → Parsed
  timespan : (value : Option ℤ) (unit : Option (List ℕ)) → Parsed

-- `value.split(" ")` and `parseInt(time)`
unfoldable pub time_and_unit : List (List ℕ) → Parsed
time_and_unit [] = timespan none none
time_and_unit (time ∷ []) = timespan (parse_int time) none
time_and_unit (time ∷ unit ∷ rest) = timespan (parse_int time) (some unit)

-- `stringToTimespan`
unfoldable pub string_to_timespan : List ℕ → Parsed
unfolding time_and_unit
string_to_timespan value = time_and_unit (split_units b' ' value)

abbrev pub or_text : List ℕ → String → List ℕ
or_text [] default = codes default
or_text (c ∷ cs) default = c ∷ cs

-- `parseConfigValue`
unfoldable pub parse_config_value : String → List ℕ → Parsed
unfolding string_to_timespan
parse_config_value type value =
    if type == "number" || type == "filesize"
    then number (get_or (pos 0) (parse_int value))
    else if type == "boolean"
    then boolean (name_eq value (codes "true"))
    else if type == "string" || type == "text"
    then text value
    else if type == "timespan"
    then string_to_timespan (or_text value "0 days")
    else text value

-- `defaultValueForType`
unfoldable pub default_value_for_type : String → List ℕ
default_value_for_type type =
    if type == "boolean"
    then codes "false"
    else if type == "number" || type == "filesize"
    then codes "0"
    else if type == "timespan"
    then codes "0 days"
    else []

unfoldable pub is_prefix : List ℕ → List ℕ → Bool
is_prefix [] cs = true
is_prefix (p ∷ ps) [] = false
is_prefix (p ∷ ps) (c ∷ cs) = eqb p c && is_prefix ps cs

-- `text.includes(part)`
unfoldable pub includes : List ℕ → List ℕ → Bool
unfolding is_prefix
includes part [] = is_prefix part []
includes part (c ∷ cs) = is_prefix part (c ∷ cs) || includes part cs

-- `text.endsWith(part)`
unfoldable pub ends_with : List ℕ → List ℕ → Bool
ends_with part [] = name_eq part []
ends_with part (c ∷ cs) = name_eq part (c ∷ cs) || ends_with part cs

-- `inferFallbackType`
unfoldable pub infer_fallback_type : List ℕ → String
unfolding includes ends_with
infer_fallback_type key =
    if ends_with (codes ".enabled") key
      || ends_with (codes "-enabled") key
      || includes (codes ".enable") key
    then "boolean"
    else "string"
