-- ===== src/Config/Updates.antt =====
-- How an update of a variable ends: refused, with nothing changed, or one row written.
use mathlib.Core.Option
use mathlib.Core.Path.{transport}
use i_transfer.Base.{
  ℕ, ◌≡◌, refl, ◌⊎◌, inl, inr, false, Option, none, some, List, [], ◌∷◌, find?, update_where,
  Bool-cases, Option-cases,
}
use i_transfer.Config.{
  Config, ConfigService, is_named, is_edit_allowed, update, update_row, update_by_parts,
  not_editable,
}
use i_transfer.Config.Validation.{
  Machine, Value, to_string, accepted_value, validate_config_variable,
}
use i_transfer.Text.{split_units, concat}
use i_transfer.World.{Outcome, ok, throws, Exception, not_found, bad_request, internal_server_error}

-- The write of a value, where none stands for null.
abbrev pub set_value : Option Value → Config → Config
set_value value c = record c { value = Option.map to_string value }

-- The row `c` with these names is not locked, the value is of its type and within its bounds, and it
-- alone is written, in the table and in memory.
pub record IsUpdated (machine : Machine) (key category name : List ℕ) (v : Value)
    (service : ConfigService) (r : Outcome Config × ConfigService) : Type 0 where
  pub row : Config
  pub value : Option Value
  pub found : find? (is_named category name) service.rows ≡ some row
  pub unlocked : row.locked ≡ false
  pub accepted : accepted_value row.type v ≡ some value
  pub valid : validate_config_variable machine key value ≡ none
  pub result : r ≡ (
    ok (set_value value row),
    record service {
      rows = update_where (is_named category name) (set_value value) service.rows;
      config_variables = update_where (is_named category name) (set_value value) service.rows;
    },
  )

abbrev pub IsRefused : ConfigService → Outcome Config × ConfigService → Type 0
IsRefused service r = (e : Exception) × (r ≡ (throws e, service))

update_row_cases :
    (machine : Machine) (key category name : List ℕ) (v : Value) (service : ConfigService)
    → let r = update_row machine key category name v service in
      IsRefused service r ⊎ IsUpdated machine key category name v service r
unfolding update_row
update_row_cases machine key category name v service =
    elim (Option-cases (find? (is_named category name) service.rows)) [
      | inl missing ↦ inl (not_found "Config variable not found", rw (missing, update_row) refl)
      | inr (row, found) ↦ elim (Bool-cases row.locked) [
        | inl locked ↦
            inl (not_found "Config variable not found", rw (found, locked, update_row) refl)
        | inr unlocked ↦ elim (Option-cases (accepted_value row.type v)) [
          | inl other_type ↦ inl (
            bad_request (concat ("Config variable must be of type " ∷ row.type ∷ [])),
            rw (found, unlocked, other_type, update_row) refl,
          )
          | inr (value, accepted) ↦
              elim (Option-cases (validate_config_variable machine key value)) [
                | inr (message, out) ↦
                    inl (bad_request message, rw (found, unlocked, accepted, out, update_row) refl)
                | inl valid ↦ inr (record {
                  row = row;
                  value = value;
                  found = found;
                  unlocked = unlocked;
                  accepted = accepted;
                  valid = valid;
                  result = rw (found, accepted, valid, update_row) (simp unlocked);
                })
              ]
        ]
      ]
    ]

-- The parts of a key.
abbrev pub FirstParts : (key category name : List ℕ) → Type 0
FirstParts key category name =
    (rest : List (List ℕ)) × (split_units b'.' key ≡ category ∷ name ∷ rest)

abbrev pub UpdateCases :
    Machine → List ℕ → Value → ConfigService → Outcome Config × ConfigService → Type 0
UpdateCases machine key v service r =
    IsRefused service r
    ⊎ ((category : List ℕ) × (name : List ℕ) × FirstParts key category name
        × IsUpdated machine key category name v service r)

update_by_parts_cases :
    (machine : Machine) (key : List ℕ) (parts : List (List ℕ)) (v : Value) (service : ConfigService)
    → split_units b'.' key ≡ parts
    → UpdateCases machine key v service (update_by_parts machine key parts v service)
unfolding update_by_parts
update_by_parts_cases machine key [] v service e =
    inl (internal_server_error "Argument `name` is missing.", refl)
update_by_parts_cases machine key (category ∷ []) v service e =
    inl (internal_server_error "Argument `name` is missing.", refl)
update_by_parts_cases machine key (category ∷ name ∷ rest) v service e =
    elim (update_row_cases machine key category name v service) [
      | inl refused ↦ inl refused
      | inr updated ↦ inr (category, name, (rest, e), updated)
    ]

pub update_cases :
    (machine : Machine) (key : List ℕ) (v : Value) (service : ConfigService)
    → UpdateCases machine key v service (update machine key v service)
unfolding update
update_cases machine key v service = elim (Bool-cases (is_edit_allowed service)) [
  | inl on ↦ rw on (update_by_parts_cases machine key (split_units b'.' key) v service refl)
  | inr off ↦ rw off (inl (not_editable, refl))
]

-- An update that returned, of a key of two parts, wrote the row of that key.
pub update-IsUpdated :
    (machine : Machine) (key category name : List ℕ) (v : Value) (service service' : ConfigService)
    (c : Config)
    → split_units b'.' key ≡ category ∷ name ∷ []
    → update machine key v service ≡ (ok c, service')
    → IsUpdated machine key category name v service (ok c, service')
update-IsUpdated machine key category name v service service' c parts done =
    elim (update_cases machine key v service) [
      | inl (e, refused) ↦ cc
      | inr (category', name', (rest, parts'), updated) ↦
          let same_category : category' ≡ category = cc in
          let same_name : name' ≡ name = cc in
          transport (λ i. IsUpdated machine key (same_category i) (same_name i) v service (done i))
            updated
    ]
