-- ===== src/Config.antt =====
-- The configuration service of backend/src/config/config.service.ts. Texts are lists of UTF-16 code
-- units, and a number of a request is an integer: fractions and exponents are not modelled, nor the
-- event `update`, which nothing listens to. The values of config.yaml are texts, as `YamlConfig` says.
pub mod Defaults
pub mod Values
pub mod Validation
pub mod Keys
pub mod Updates
pub mod ReadBack
pub mod Within
pub mod Bounds
pub mod Refinement
use i_transfer.Base.{
  ℕ, ◌+◌, String, Bool, true, false, not, ◌&&◌, ◌||◌, Option, none, some, List, [], ◌∷◌, ◌++◌, ◌==◌,
  map, find?, select, update_where, ℤ, pos, negsuc, get_or, is_some, eqb, leb, length,
  if◌then◌else◌,
}
use mathlib.Core.Option
use i_transfer.Config.Defaults.{Definition, get_config_variable_definition}
use i_transfer.Config.Validation.{
  Machine, Value, type_of, to_string, num_value, is_between, path_error, is_truthy, string_of,
  validate_config_variable, is_empty, accepted_value,
}
use i_transfer.Config.Values.{
  Parsed, time_and_unit, string_to_timespan, or_text, parse_config_value, default_value_for_type,
  is_prefix, includes, ends_with, infer_fallback_type,
}
use i_transfer.File.Name.{name_eq, has}
use i_transfer.Text.{codes, split_units, concat, trim}
use i_transfer.Text.Numbers.{parse_int, print_int}
use i_transfer.World.{Outcome, ok, throws, Exception, bad_request, not_found, internal_server_error}

-- `Config` of backend/prisma/schema.prisma, less `updatedAt` and `obscured`.
pub record Config : Type 0 where
  pub category : List ℕ
  pub name : List ℕ
  pub type : String
  pub default_value : List ℕ
  pub value : Option (List ℕ)
  pub secret : Bool
  pub locked : Bool
  pub order : ℕ

-- `ConfigLookupVariable`
pub record ConfigLookupVariable : Type 0 where
  pub type : String
  pub default_value : List ℕ
  pub value : Option (List ℕ)

-- A parsed config.yaml: its categories, each with the value of a name.
abbrev pub YamlConfig : Type 0
YamlConfig = List ((List ℕ) × (List ℕ → Option (List ℕ)))

-- The service: the table, the rows that it holds in memory, config.yaml and the warnings given.
pub record ConfigService : Type 0 where
  pub rows : List Config
  pub config_variables : List Config
  pub yaml_config : Option YamlConfig
  pub missing_config_warnings : List (List ℕ)

-- `${variable.category}.${variable.name}`
abbrev pub key_of : Config → List ℕ
key_of c = c.category ++ (b'.' ∷ c.name)

-- `isEditAllowed`
unfoldable pub is_edit_allowed : ConfigService → Bool
is_edit_allowed service = not (is_some service.yaml_config)

yaml_category : List ℕ → YamlConfig → Option (List ℕ → Option (List ℕ))
yaml_category category [] = none
yaml_category category ((name, values) ∷ rest) =
    if name_eq name category then some values else yaml_category category rest

with_yaml : YamlConfig → Config → Config
with_yaml yaml c = elim (yaml_category c.category yaml) [
  | none ↦ c
  | some values ↦ record c { value = values c.name }
]

-- `loadYamlConfig`, from the file as the package yaml parses it; none where there is none.
load_yaml_config : Option YamlConfig → ConfigService → ConfigService
unfolding with_yaml yaml_category
load_yaml_config none service = service
load_yaml_config (some yaml) service = record service {
  yaml_config = some yaml;
  config_variables = map (with_yaml yaml) service.config_variables;
}

-- `warnMissingConfigFallback`, whose message goes to the log.
warn_missing_config_fallback : List ℕ → ConfigService → ConfigService
warn_missing_config_fallback key service =
    if has service.missing_config_warnings key
    then service
    else record service { missing_config_warnings = key ∷ service.missing_config_warnings }

-- `getFallbackConfigVariable`
fallback_of : List ℕ → Option Definition → ConfigLookupVariable
unfolding infer_fallback_type
fallback_of key none = record {
  type = infer_fallback_type key;
  default_value = default_value_for_type (infer_fallback_type key);
  value = none;
}
fallback_of key (some d) = record {
  type = d.type;
  default_value = get_or (default_value_for_type d.type) (Option.map codes d.default_value);
  value = d.value;
}

get_fallback_config_variable : Machine → List ℕ → ConfigLookupVariable
unfolding fallback_of
get_fallback_config_variable machine key =
    fallback_of key (get_config_variable_definition machine.jwt_secret key)

-- `configVariable.value ?? configVariable.defaultValue ?? ""`, parsed.
unfoldable pub value_in_force :
    (type : String) (default_value : List ℕ) (value : Option (List ℕ)) → Parsed
value_in_force type default_value value = parse_config_value type (get_or default_value value)

-- `get`
unfoldable pub get : Machine → List ℕ → ConfigService → Parsed × ConfigService
unfolding get_fallback_config_variable warn_missing_config_fallback
get machine key service = elim (find? (λ c. name_eq (key_of c) key) service.config_variables) [
  | some c ↦ (value_in_force c.type c.default_value c.value, service)
  | none ↦
      let c = get_fallback_config_variable machine key in
      (value_in_force c.type c.default_value c.value, warn_missing_config_fallback key service)
]

-- A row as `list` gives it, with its key and the value in force.
pub record Listed : Type 0 where
  pub variable : Config
  pub key : List ℕ
  pub value : List ℕ

-- `list`
list : ConfigService → List Listed
list service =
    map (λ c. record { variable = c; key = key_of c; value = get_or c.default_value c.value })
      (select (λ c. not c.secret) service.config_variables)

-- `where: { name_category: { category, name } }`
abbrev pub is_named : (category name : List ℕ) → Config → Bool
is_named category name c = name_eq c.category category && name_eq c.name name

-- The exceptions and the write of `update`, for the row with these names.
update_row :
    Machine → (key category name : List ℕ) → Value → ConfigService → Outcome Config × ConfigService
update_row machine key category name v service =
    elim (find? (is_named category name) service.rows) [
      | none ↦ (throws (not_found "Config variable not found"), service)
      | some c ↦
          if c.locked
          then (throws (not_found "Config variable not found"), service)
          else elim (accepted_value c.type v) [
            | none ↦ (
              throws (bad_request (concat ("Config variable must be of type " ∷ c.type ∷ []))),
              service,
            )
            | some value ↦ elim (validate_config_variable machine key value) [
              | some message ↦ (throws (bad_request message), service)
              | none ↦
                  let set = λ (x : Config). record x { value = Option.map to_string value } in
                  let rows = update_where (is_named category name) set service.rows in
                  (ok (set c), record service { rows = rows; config_variables = rows })
            ]
          ]
    ]

-- `key.split(".")[0]` and `key.split(".")[1]`; Prisma refuses a query without a name.
update_by_parts :
    Machine
    → (key : List ℕ) → List (List ℕ)
    → Value
    → ConfigService
    → Outcome Config × ConfigService
update_by_parts machine key (category ∷ name ∷ rest) v service =
    update_row machine key category name v service
update_by_parts machine key _ v service =
    (throws (internal_server_error "Argument `name` is missing."), service)

not_editable : Exception
not_editable =
    bad_request "You are only allowed to update config variables via the config.yaml file"

-- `update`
unfoldable pub update : Machine → List ℕ → Value → ConfigService → Outcome Config × ConfigService
unfolding update_by_parts update_row not_editable
update machine key v service =
    if is_edit_allowed service
    then update_by_parts machine key (split_units b'.' key) v service
    else (throws not_editable, service)

-- A step that may throw, and the rest.
abbrev pub carry :
    {A B : Type 0}
    → Outcome A × ConfigService
    → (A → ConfigService → Outcome B × ConfigService)
    → Outcome B × ConfigService
carry (ok a, service) k = k a service
carry (throws e, service) k = (throws e, service)

-- The loop of `updateMany`: what was written before an exception stays.
unfoldable pub update_all :
    Machine → List (List ℕ × Value) → ConfigService → Outcome (List Config) × ConfigService
update_all machine [] service = (ok [], service)
update_all machine ((key, v) ∷ rest) service = carry (update machine key v service) (λ c service'.
    carry (update_all machine rest service') (λ cs service''. (ok (c ∷ cs), service'')))

-- `updateMany`
unfoldable pub update_many :
    Machine → List (List ℕ × Value) → ConfigService → Outcome (List Config) × ConfigService
unfolding update_all not_editable
update_many machine updates service =
    if is_edit_allowed service
    then update_all machine updates service
    else (throws not_editable, service)
