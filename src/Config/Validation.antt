-- ===== src/Config/Validation.antt =====
-- The checks of an update of backend/src/config/config.service.ts: the type of the value, and
-- `validateConfigVariable`.
use i_transfer.Base.{
  ℕ, String, Bool, true, false, not, ◌&&◌, Option, none, some, List, [], ◌==◌, ℤ, pos, negsuc, eqb,
  leb, length, if◌then◌else◌,
}
use i_transfer.File.Name.{name_eq}
use i_transfer.Text.{codes, trim}
use i_transfer.Text.Numbers.{parse_int, print_int}

-- A value of a request.
pub data Value : Type 0 where
  text : List ℕ → Value
  number : ℤ → Value
  boolean : Bool → Value

-- What the service asks of Node's `path` and `fs`: whether a path is absolute, whether it is a root,
-- and whether it can be made and written. The secret is the one drawn when the program starts.
pub record Machine : Type 0 where
  pub is_absolute : List ℕ → Bool
  pub is_root : List ℕ → Bool
  pub is_writable : List ℕ → Bool
  pub jwt_secret : List ℕ

-- `typeof value`
unfoldable pub type_of : Value → String
type_of (text t) = "string"
type_of (number z) = "number"
type_of (boolean b) = "boolean"

-- `String(value)` and `value.toString()`
unfoldable pub to_string : Value → List ℕ
to_string (text t) = t
to_string (number z) = print_int z
to_string (boolean true) = codes "true"
to_string (boolean false) = codes "false"

-- `typeof value === "number" ? value : parseInt(String(value), 10)`, of a value that may be null.
unfoldable pub num_value : Option Value → Option ℤ
unfolding to_string
num_value none = parse_int (codes "null")
num_value (some (number z)) = some z
num_value (some (text t)) = parse_int t
num_value (some (boolean b)) = parse_int (to_string (boolean b))

-- `value >= low && value <= high`, which `NaN` does not satisfy.
unfoldable pub is_between : (low high : ℕ) → Option ℤ → Bool
is_between low high none = false
is_between low high (some (pos n)) = leb low n && leb n high
is_between low high (some (negsuc n)) = false

-- The checks of the path: the first that fails, and none where all hold.
unfoldable pub path_error : Machine → List ℕ → Option String
path_error machine path =
    if not (machine.is_absolute path)
    then some "Local upload path must be absolute"
    else if machine.is_root path
    then some "Local upload path cannot be a filesystem root"
    else if not (machine.is_writable path)
    then some "Local upload path must be writable"
    else none

-- `value` in a test: `null`, `0`, `false` and `""` are falsy.
unfoldable pub is_truthy : Option Value → Bool
is_truthy none = false
is_truthy (some (text t)) = not (eqb (length t) 0)
is_truthy (some (number z)) = elim z [ pos n ↦ not (eqb n 0) | negsuc n ↦ true ]
is_truthy (some (boolean b)) = b

unfoldable pub string_of : Option Value → List ℕ
string_of none = codes "null"
string_of (some v) = to_string v

-- `validateConfigVariable`: the message of its exception, or none.
unfoldable pub validate_config_variable : Machine → List ℕ → Option Value → Option String
unfolding num_value path_error is_truthy string_of
validate_config_variable machine key value =
    if name_eq key (codes "share.shareIdLength") && not (is_between 2 50 (num_value value))
    then some "Share ID length must be between 2 and 50"
    else if name_eq key (codes "share.zipCompressionLevel")
        && not (is_between 0 9 (num_value value))
    then some "Zip compression level must be between 0 and 9"
    else if name_eq key (codes "storage.localUploadPath") && is_truthy value
    then path_error machine (trim (string_of value))
    else none

-- `value === ""`
unfoldable pub is_empty : Value → Bool
is_empty (text []) = true
is_empty _ = false

-- The value to write, where `""` stands for null, or none where it is not of the variable's type.
unfoldable pub accepted_value : (type : String) → Value → Option (Option Value)
unfolding type_of is_empty
accepted_value type v =
    if is_empty v
    then some none
    else if not (type_of v == type)
        && (type_of v == "string" && (not (type == "text") && not (type == "timespan")))
    then none
    else some (some v)
