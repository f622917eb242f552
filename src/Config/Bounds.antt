-- ===== src/Config/Bounds.antt =====
-- The bounds of the two variables that `validateConfigVariable` checks.
use mathlib.Core.Path.{transport}
use i_transfer.Base.{
  ℕ, ◌≤◌, ◌≡◌, refl, ap, sym, ◌∙◌, inl, inr, true, Option, none, some, List, [], ◌∷◌, find?,
  Bool-cases, arith, pos, negsuc, get_or, All, ℤ,
}
use i_transfer.Config.{
  Config, ConfigService, key_of, value_in_force, get, update, update_all, update_many, carry,
  is_edit_allowed,
}
use i_transfer.Config.Validation.{Machine, Value, num_value, is_between, validate_config_variable}
use i_transfer.Config.Values.{Parsed, parse_config_value}
use i_transfer.Config.Keys.{HasParts}
use i_transfer.Config.ReadBack.{get-found}
use i_transfer.Config.Updates.{IsUpdated, update_cases}
use i_transfer.File.Name.{name_eq}
use i_transfer.Text.{codes}
use i_transfer.Text.Numbers.{parse_int}
use i_transfer.World.{Outcome, ok, throws}
use i_transfer.Config.Within.{IsWithin, written-IsWithin}

abbrev pub id_length_key : List ℕ
id_length_key = codes "share.shareIdLength"

abbrev pub compression_key : List ℕ
compression_key = codes "share.zipCompressionLevel"

-- The rows in memory are those of the table, and the two variables are within their bounds.
pub record IsBounded (service : ConfigService) : Type 0 where
  pub same : service.config_variables ≡ service.rows
  pub id_length : IsWithin 2 50 id_length_key service.rows
  pub compression : IsWithin 0 9 compression_key service.rows

valid-id_length :
    (machine : Machine) (value : Option Value)
    → validate_config_variable machine id_length_key value ≡ none
    → is_between 2 50 (num_value value) ≡ true
unfolding validate_config_variable name_eq
valid-id_length machine value valid = elim (Bool-cases (is_between 2 50 (num_value value))) [
  | inl within ↦ within
  | inr out ↦ let refused = rw out at valid in cc
]

valid-compression :
    (machine : Machine) (value : Option Value)
    → validate_config_variable machine compression_key value ≡ none
    → is_between 0 9 (num_value value) ≡ true
unfolding validate_config_variable name_eq
valid-compression machine value valid = elim (Bool-cases (is_between 0 9 (num_value value))) [
  | inl within ↦ within
  | inr out ↦ let refused = rw out at valid in cc
]

-- A key of two parts.
abbrev pub IsPlain : List ℕ → Type 0
IsPlain key = (category : List ℕ) × (name : List ℕ) × HasParts key category name

updated-IsBounded :
    (machine : Machine) (key category name : List ℕ) (v : Value) (service : ConfigService)
    (r : Outcome Config × ConfigService)
    → HasParts key category name
    → IsUpdated machine key category name v service r
    → IsBounded service
    → IsBounded r.1
updated-IsBounded machine key category name v service r parts u b =
    transport (λ i. IsBounded (sym u.result i).1)
      (record {
        same = refl;
        id_length =
            written-IsWithin 2 50 id_length_key key category name v u.value service.rows parts
              u.found u.accepted
              (λ here.
                valid-id_length machine u.value
                  (ap (λ k. validate_config_variable machine k u.value) (sym here) ∙ u.valid))
              b.id_length;
        compression =
            written-IsWithin 0 9 compression_key key category name v u.value service.rows parts
              u.found u.accepted
              (λ here.
                valid-compression machine u.value
                  (ap (λ k. validate_config_variable machine k u.value) (sym here) ∙ u.valid))
              b.compression;
      })

update-IsBounded :
    (machine : Machine) (key : List ℕ) (v : Value) (service : ConfigService)
    → IsPlain key
    → IsBounded service
    → IsBounded (update machine key v service).1
update-IsBounded machine key v service (category, name, parts) b =
    elim (update_cases machine key v service) [
      | inl (e, refused) ↦ transport (λ i. IsBounded (sym refused i).1) b
      | inr (category', name', (rest, parts'), u) ↦
          let same_category : category' ≡ category = cc in
          let same_name : name' ≡ name = cc in
          updated-IsBounded machine key category name v service (update machine key v service) parts
            (transport
              (λ i.
                IsUpdated machine key (same_category i) (same_name i) v service
                  (update machine key v service))
              u)
            b
    ]

carry-IsBounded :
    {A B : Type 0} (r : Outcome A × ConfigService)
    (k : A → ConfigService → Outcome B × ConfigService)
    → IsBounded r.1
    → ((a : A) (service : ConfigService) → IsBounded service → IsBounded (k a service).1)
    → IsBounded (carry r k).1
carry-IsBounded (ok a, service) k b keeps = keeps a service b
carry-IsBounded (throws e, service) k b keeps = b

update_all-IsBounded :
    (machine : Machine) (updates : List (List ℕ × Value)) (service : ConfigService)
    → All (λ u. IsPlain u.0) updates
    → IsBounded service
    → IsBounded (update_all machine updates service).1
unfolding update_all
update_all-IsBounded machine [] service plain b = b
update_all-IsBounded machine ((key, v) ∷ rest) service (here, plain) b =
    carry-IsBounded (update machine key v service) _ (update-IsBounded machine key v service here b)
      (λ c service' b'.
        carry-IsBounded (update_all machine rest service') _
          (update_all-IsBounded machine rest service' plain b') (λ cs service'' b''. b''))

-- A value_in_force value that is a number between the two.
abbrev pub InRange : (low high : ℕ) → Parsed → Type 0
InRange low high (Parsed.number (pos n)) = (low ≤ n) × (n ≤ high)
InRange low high _ = ⊥

is_between-InRange :
    (low high : ℕ) (o : Option ℤ)
    → is_between low high o ≡ true
    → InRange low high (Parsed.number (get_or (pos 0) o))
unfolding is_between
is_between-InRange low high none h = cc
is_between-InRange low high (some (pos n)) h = (ground arith, ground arith)
is_between-InRange low high (some (negsuc n)) h = cc

get-InRange :
    (machine : Machine) (low high : ℕ) (key : List ℕ) (service : ConfigService)
    → service.config_variables ≡ service.rows
    → IsWithin low high key service.rows
    → InRange low high (get machine key service).0
unfolding value_in_force parse_config_value
get-InRange machine low high key service same w =
    let there =
      get-found machine key service w.row
        (ap (find? (λ c. name_eq (key_of c) key)) same ∙ w.found) in
    let number_is =
      ap (λ type. parse_config_value type (get_or w.row.default_value w.row.value)) w.is_number in
    transport
      (λ i. InRange low high ((sym (ap (λ (x : Parsed × ConfigService). x.0) there ∙ number_is)) i))
      (is_between-InRange low high (parse_int (get_or w.row.default_value w.row.value)) w.within)

update_many-keeps :
    (machine : Machine) (updates : List (List ℕ × Value)) (service : ConfigService)
    → All (λ u. IsPlain u.0) updates
    → IsBounded service
    → IsBounded (update_many machine updates service).1
unfolding update_many
update_many-keeps machine updates service plain b = elim (Bool-cases (is_edit_allowed service)) [
  | inl on ↦ rw on (update_all-IsBounded machine updates service plain b)
  | inr off ↦ rw off b
]

-- From a service whose two bounded variables are within their bounds, any list of updates whose keys
-- have two parts, refused half way or not, leaves them so: `get` then gives a length of ids from 2 to
-- 50 and a level of compression from 0 to 9.
pub update_many-IsBounded :
    (machine : Machine) (updates : List (List ℕ × Value)) (service : ConfigService)
    → All (λ u. IsPlain u.0) updates
    → IsBounded service
    → let service' = (update_many machine updates service).1 in
      IsBounded service'
      × InRange 2 50 (get machine id_length_key service').0
      × InRange 0 9 (get machine compression_key service').0
update_many-IsBounded machine updates service plain b =
    let after = update_many-keeps machine updates service plain b in
    (
      after,
      get-InRange machine 2 50 id_length_key _ after.same after.id_length,
      get-InRange machine 0 9 compression_key _ after.same after.compression,
    )
