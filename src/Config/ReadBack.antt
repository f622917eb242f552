-- ===== src/Config/ReadBack.antt =====
-- What `get` gives for a variable after it was updated.
use mathlib.Core.Option
use mathlib.Core.Path.{fun_ext}
use i_transfer.Base.{
  ℕ, ◌≡◌, refl, ap, sym, ◌∙◌, ◌⊎◌, inl, inr, Bool, true, false, ◌||◌, Option, none, some, List, [],
  ◌∷◌, String, ◌==◌, eq_iff, find?, find?-holds, find?-update_where, update_where, Bool-cases,
  if◌then◌else◌, arith, pos, get_or,
}
use i_transfer.Config.{Config, ConfigService, is_named, key_of, value_in_force, get, update}
use i_transfer.Config.Validation.{Machine, Value, to_string, accepted_value}
use i_transfer.Config.Values.{Parsed, parse_config_value}
use i_transfer.Config.Keys.{HasParts, key_of-is_named}
use i_transfer.Config.Updates.{set_value, update-IsUpdated}
use i_transfer.File.Name.{name_eq}
use i_transfer.Text.Numbers.{print_int, parse_int-print_int}
use i_transfer.World.{Outcome, ok}

-- What a value of a request is for a variable of a type: itself, if it is of that type.
abbrev pub reading : (type : String) → Value → Option Parsed
reading type (Value.number z) =
    if type == "number" || type == "filesize" then some (Parsed.number z) else none
reading type (Value.boolean b) = if type == "boolean" then some (Parsed.boolean b) else none
reading type (Value.text []) = none
reading type (Value.text (c ∷ cs)) =
    if type == "string" || type == "text" then some (Parsed.text (c ∷ cs)) else none

accepted_value-reading :
    (type : String) (v : Value) {value : Option Value} {p : Parsed}
    → reading type v ≡ some p
    → accepted_value type v ≡ some value
    → value ≡ some v
unfolding accepted_value
accepted_value-reading type (Value.number z) r h = ground arith
accepted_value-reading type (Value.boolean b) r h = ground arith
accepted_value-reading type (Value.text []) r h = cc
accepted_value-reading type (Value.text (c ∷ cs)) r h = ground arith

-- The cases of a test of two types.
one_of : (type a b : String) → (type == a || type == b) ≡ true → (type ≡ a) ⊎ (type ≡ b)
one_of type a b h = elim (Bool-cases (type == a)) [
  | inl first ↦ inl ((eq_iff type a).0 first)
  | inr other ↦ inr ((eq_iff type b).0 (rw other at h))
]

parse-print_int :
    (type : String) (z : _)
    → (type == "number" || type == "filesize") ≡ true
    → parse_config_value type (print_int z) ≡ Parsed.number z
unfolding parse_config_value
parse-print_int type z h = rw h (ap (λ n. Parsed.number (get_or (pos 0) n)) (parse_int-print_int z))

parse-boolean :
    (type : String) (b : Bool)
    → (type == "boolean") ≡ true
    → parse_config_value type (to_string (Value.boolean b)) ≡ Parsed.boolean b
unfolding parse_config_value to_string name_eq
parse-boolean type true h = rw ((eq_iff type "boolean").0 h) refl
parse-boolean type false h = rw ((eq_iff type "boolean").0 h) refl

parse-text :
    (type : String) (t : List ℕ)
    → (type == "string" || type == "text") ≡ true
    → parse_config_value type t ≡ Parsed.text t
unfolding parse_config_value
parse-text type t h = elim (one_of type "string" "text" h) [ inl e ↦ rw e refl | inr e ↦ rw e refl ]

-- A value that was printed is value_in_force as itself.
parse_config_value-to_string :
    (type : String) (v : Value) {p : Parsed}
    → reading type v ≡ some p
    → parse_config_value type (to_string v) ≡ p
unfolding to_string
parse_config_value-to_string type (Value.number z) r =
    elim (Bool-cases (type == "number" || type == "filesize")) [
      | inl is_number ↦ parse-print_int type z is_number ∙ ground arith
      | inr other ↦ cc
    ]
parse_config_value-to_string type (Value.boolean b) r = elim (Bool-cases (type == "boolean")) [
  | inl is_boolean ↦ parse-boolean type b is_boolean ∙ ground arith
  | inr other ↦ cc
]
parse_config_value-to_string type (Value.text []) r = cc
parse_config_value-to_string type (Value.text (c ∷ cs)) r =
    elim (Bool-cases (type == "string" || type == "text")) [
      | inl is_text ↦ parse-text type (c ∷ cs) is_text ∙ ground arith
      | inr other ↦ cc
    ]

-- The row of a key is the row that the update wrote.
pub find?-written :
    (key category name : List ℕ) (value : Option Value) (rows : List Config) {row : Config}
    → HasParts key category name
    → find? (is_named category name) rows ≡ some row
    → find?
        (λ c. name_eq (key_of c) key)
        (update_where (is_named category name) (set_value value) rows)
      ≡ some (set_value value row)
find?-written key category name value rows {row} parts found =
    ap (λ test. find? test (update_where (is_named category name) (set_value value) rows))
      (fun_ext (key_of-is_named key category name parts))
    ∙ find?-update_where (is_named category name) (is_named category name) (set_value value) rows
        (λ x. refl)
    ∙ rw found (rw (find?-holds (is_named category name) rows found) refl)

pub get-found :
    (machine : Machine) (key : List ℕ) (service : ConfigService) (c : Config)
    → find? (λ x. name_eq (key_of x) key) service.config_variables ≡ some c
    → get machine key service ≡ (value_in_force c.type c.default_value c.value, service)
unfolding get
get-found machine key service c found = rw (found, get) refl

-- After an update of a key of two parts that returned, with a value of the variable's type that is not
-- the empty text, `get` gives that value.
pub get-update :
    (machine : Machine) (key category name : List ℕ) (v : Value) (p : Parsed)
    (service service' : ConfigService) (c : Config)
    → HasParts key category name
    → reading c.type v ≡ some p
    → update machine key v service ≡ (ok c, service')
    → get machine key service' ≡ (p, service')
unfolding value_in_force
get-update machine key category name v p service service' c parts r done =
    let u = update-IsUpdated machine key category name v service service' c parts done in
    let c_is : c ≡ set_value u.value u.row = cc in
    let service_is = ap (λ (x : Outcome Config × ConfigService). x.1) u.result in
    let value_is : u.value ≡ some v =
      accepted_value-reading u.row.type v (ap (λ (x : Config). reading x.type v) (sym c_is) ∙ r)
        u.accepted in
    get-found machine key service' (set_value u.value u.row) (
      ap (λ (x : ConfigService). find? (λ y. name_eq (key_of y) key) x.config_variables) service_is
      ∙ find?-written key category name u.value service.rows parts u.found)
    ∙ ap
        (λ value. (
          parse_config_value u.row.type (get_or u.row.default_value (Option.map to_string value)),
          service',
        ))
        value_is
    ∙ ap (λ q. (q, service'))
        (parse_config_value-to_string u.row.type v
          (ap (λ (x : Config). reading x.type v) (sym c_is) ∙ r))
