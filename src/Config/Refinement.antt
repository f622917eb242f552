-- ===== src/Config/Refinement.antt =====
-- The service as a map from keys to values: `update` writes at one key.
use mathlib.Core.Option
use mathlib.Core.Path.{fun_ext}
use i_transfer.Base.{
  ℕ, ◌≡◌, refl, ap, sym, ◌∙◌, inl, inr, false, Option, none, some, List, [], ◌∷◌, All, find?,
  find?-update_where, find?-holds, update_where, Bool-cases, Option-cases, if◌then◌else◌,
}
use i_transfer.Config.{
  Config, ConfigService, is_named, key_of, get, update, update_all, update_many, carry,
  is_edit_allowed, value_in_force, get_fallback_config_variable,
}
use i_transfer.Config.Validation.{Machine, Value}
use i_transfer.Config.Values.{Parsed}
use i_transfer.Config.Keys.{HasParts, key_of-is_named}
use i_transfer.Config.Bounds.{IsPlain}
use i_transfer.Config.ReadBack.{reading, find?-written, get-found, get-update}
use i_transfer.Config.Updates.{IsUpdated, set_value, update-IsUpdated}
use i_transfer.File.Name.{name_eq}
use i_transfer.File.Name.Available.{name_eq_iff}
use i_transfer.World.{Outcome, ok, throws, returns}

-- The value that `get` gives for a key.
abbrev pub view : Machine → ConfigService → List ℕ → Parsed
view machine service key = (get machine key service).0

abbrev pub reading_of : Option Config → Value → Option Parsed
reading_of none v = none
reading_of (some c) v = reading c.type v

-- What a value is for the variable of a key.
abbrev pub reading_at : ConfigService → List ℕ → Value → Option Parsed
reading_at service key v = reading_of (find? (λ c. name_eq (key_of c) key) service.rows) v

-- The map with another value at one key.
abbrev pub override : List ℕ → Parsed → (List ℕ → Parsed) → List ℕ → Parsed
override key p f k = if name_eq k key then p else f k

abbrev pub written : Option Parsed → List ℕ → (List ℕ → Parsed) → List ℕ → Parsed
written none key f = f
written (some p) key f = override key p f

-- The map after these updates, which leave the types of the variables as they are.
abbrev pub replay : ConfigService → List (List ℕ × Value) → (List ℕ → Parsed) → List ℕ → Parsed
replay service [] f = f
replay service ((key, v) ∷ rest) f = replay service rest (written (reading_at service key v) key f)

-- The row of another key is as it was.
module _ (key category name : List ℕ) (parts : HasParts key category name)
    (value : Option Value) where
  write : Config → Config
  write c = if is_named category name c then set_value value c else c

  find?-other :
      (k : List ℕ) (rows : List Config)
      → name_eq k key ≡ false
      → find?
          (λ c. name_eq (key_of c) k)
          (update_where (is_named category name) (set_value value) rows)
        ≡ find? (λ c. name_eq (key_of c) k) rows
  unfolding write
  find?-other k rows other =
      find?-update_where (λ c. name_eq (key_of c) k) (is_named category name) (set_value value) rows
        (λ x. refl)
      ∙ elim (Option-cases (find? (λ c. name_eq (key_of c) k) rows)) [
        | inl missing ↦ ap (Option.map write) missing ∙ sym missing
        | inr (row, found) ↦
            ap (Option.map write) found
            ∙ ap (λ b. some (if b then set_value value row else row)) (miss row found)
            ∙ sym found
      ]
    where
      miss :
          (row : Config)
          → find? (λ c. name_eq (key_of c) k) rows ≡ some row
          → is_named category name row ≡ false
      miss row found =
          let here =
            (name_eq_iff (key_of row) k).0 (find?-holds (λ c. name_eq (key_of c) k) rows found) in
          sym (key_of-is_named key category name parts row) ∙ ap (λ x. name_eq x key) here ∙ other

view-missing :
    (machine : Machine) (k : List ℕ) (service : ConfigService)
    → find? (λ c. name_eq (key_of c) k) service.config_variables ≡ none
    → let c = get_fallback_config_variable machine k in
      view machine service k ≡ value_in_force c.type c.default_value c.value
unfolding get
view-missing machine k service missing = rw (missing, view, get) refl

-- `get` looks at the row in memory only.
view-same :
    (machine : Machine) (k : List ℕ) (service service' : ConfigService)
    → find? (λ c. name_eq (key_of c) k) service'.config_variables
      ≡ find? (λ c. name_eq (key_of c) k) service.config_variables
    → view machine service' k ≡ view machine service k
view-same machine k service service' same =
    elim (Option-cases (find? (λ c. name_eq (key_of c) k) service.config_variables)) [
      | inl missing ↦
          view-missing machine k service' (same ∙ missing)
          ∙ sym (view-missing machine k service missing)
      | inr (row, found) ↦
          ap (λ (x : Parsed × ConfigService). x.0) (get-found machine k service' row (same ∙ found))
          ∙ sym (ap (λ (x : Parsed × ConfigService). x.0) (get-found machine k service row found))
    ]

-- One update, as a write of the map.
record IsWrite (machine : Machine) (key : List ℕ) (p : Parsed) (service service' : ConfigService)
    : Type 0 where
  same_rows : service'.config_variables ≡ service'.rows
  overrides : (k : List ℕ) → view machine service' k ≡ override key p (view machine service) k
  same_types : (k : List ℕ) (v : Value) → reading_at service' k v ≡ reading_at service k v

module _ (machine : Machine) (key : List ℕ) (v : Value) (p : Parsed)
    (service service' : ConfigService) (c : Config) (plain : IsPlain key)
    (same : service.config_variables ≡ service.rows) (r : reading_at service key v ≡ some p)
    (done : update machine key v service ≡ (ok c, service')) where
  updated : IsUpdated machine key plain.0 plain.1 v service (ok c, service')
  updated = update-IsUpdated machine key plain.0 plain.1 v service service' c plain.2 done

  service_is : service' ≡ record service {
    rows = update_where (is_named plain.0 plain.1) (set_value updated.value) service.rows;
    config_variables =
        update_where (is_named plain.0 plain.1) (set_value updated.value) service.rows;
  }
  service_is = ap (λ (x : Outcome Config × ConfigService). x.1) updated.result

  -- The row that the update wrote is the row of its key.
  row_is : find? (λ x. name_eq (key_of x) key) service.rows ≡ some updated.row
  row_is =
      ap (λ test. find? test service.rows) (fun_ext (key_of-is_named key plain.0 plain.1 plain.2))
      ∙ updated.found

  reading_is : reading c.type v ≡ some p
  reading_is =
      ap (λ (x : Outcome Config × ConfigService). reading_of (returns x.0) v) updated.result
      ∙ ap (λ o. reading_of o v) (sym row_is)
      ∙ r

  same_find? :
      (k : List ℕ)
      → name_eq k key ≡ false
      → find? (λ x. name_eq (key_of x) k) service'.rows
        ≡ find? (λ x. name_eq (key_of x) k) service.rows
  same_find? k other =
      ap (λ (x : ConfigService). find? (λ y. name_eq (key_of y) k) x.rows) service_is
      ∙ find?-other key plain.0 plain.1 plain.2 updated.value k service.rows other

  same_rows : service'.config_variables ≡ service'.rows
  same_rows =
      ap (λ (x : ConfigService). x.config_variables) service_is
      ∙ sym (ap (λ (x : ConfigService). x.rows) service_is)

  written_is :
      find? (λ x. name_eq (key_of x) key) service'.rows ≡ some (set_value updated.value updated.row)
  written_is =
      ap (λ (x : ConfigService). find? (λ y. name_eq (key_of y) key) x.rows) service_is
      ∙ find?-written key plain.0 plain.1 updated.value service.rows plain.2 updated.found

  overrides : (k : List ℕ) → view machine service' k ≡ override key p (view machine service) k
  overrides k = elim (Bool-cases (name_eq k key)) [
    | inl here ↦ rw here (
        ap (view machine service') ((name_eq_iff k key).0 here)
        ∙ ap (λ (x : Parsed × ConfigService). x.0)
            (get-update machine key plain.0 plain.1 v p service service' c plain.2 reading_is done))
    | inr other ↦ rw other (
        view-same machine k service service' (
          ap (find? (λ x. name_eq (key_of x) k)) same_rows
          ∙ same_find? k other
          ∙ ap (find? (λ x. name_eq (key_of x) k)) (sym same)))
  ]

  same_types : (k : List ℕ) (u : Value) → reading_at service' k u ≡ reading_at service k u
  same_types k u = elim (Bool-cases (name_eq k key)) [
    | inl here ↦
        ap (λ x. reading_at service' x u) ((name_eq_iff k key).0 here)
        ∙ ap (λ o. reading_of o u) written_is
        ∙ ap (λ o. reading_of o u) (sym row_is)
        ∙ ap (λ x. reading_at service x u) (sym ((name_eq_iff k key).0 here))
    | inr other ↦ ap (λ o. reading_of o u) (same_find? k other)
  ]

  update-IsWrite : IsWrite machine key p service service'
  update-IsWrite = record { same_rows = same_rows; overrides = overrides; same_types = same_types }

-- A step that returned, and the rest that returned.
carry-ok :
    {A B : Type 0} (r : Outcome A × ConfigService)
    (k : A → ConfigService → Outcome B × ConfigService) {b : B} {last : ConfigService}
    → carry r k ≡ (ok b, last)
    → (a : A) × (middle : ConfigService) × (r ≡ (ok a, middle)) × (k a middle ≡ (ok b, last))
carry-ok (ok a, middle) k h = (a, middle, refl, h)
carry-ok (throws e, middle) k h = cc

-- The replay depends on the types of the variables only.
replay-same :
    (service service' : ConfigService) (updates : List (List ℕ × Value)) (f : List ℕ → Parsed)
    → ((k : List ℕ) (v : Value) → reading_at service' k v ≡ reading_at service k v)
    → replay service' updates f ≡ replay service updates f
replay-same service service' [] f same = refl
replay-same service service' ((key, v) ∷ rest) f same =
    ap (λ o. replay service' rest (written o key f)) (same key v)
    ∙ replay-same service service' rest (written (reading_at service key v) key f) same

-- The update has a plain key and a value of the variable's type.
abbrev pub IsTyped : ConfigService → List ℕ × Value → Type 0
IsTyped service (key, v) = IsPlain key × (p : Parsed) × (reading_at service key v ≡ some p)

All-IsTyped :
    (service service' : ConfigService) (updates : List (List ℕ × Value))
    → ((k : List ℕ) (v : Value) → reading_at service' k v ≡ reading_at service k v)
    → All (IsTyped service) updates
    → All (IsTyped service') updates
All-IsTyped service service' [] same all = tt
All-IsTyped service service' ((key, v) ∷ rest) same ((plain, p, r), all) =
    ((plain, p, same key v ∙ r), All-IsTyped service service' rest same all)

update_all-replay :
    (machine : Machine) (updates : List (List ℕ × Value)) (service service' : ConfigService)
    (cs : List Config)
    → service.config_variables ≡ service.rows
    → All (IsTyped service) updates
    → update_all machine updates service ≡ (ok cs, service')
    → view machine service' ≡ replay service updates (view machine service)
unfolding update_all
update_all-replay machine [] service service' cs same all done =
    ap (view machine) (sym (ap (λ (x : Outcome (List Config) × ConfigService). x.1) done))
update_all-replay machine ((key, v) ∷ rest) service service' cs same ((plain, p, r), all) done =
    let (c, middle, first, more) = carry-ok (update machine key v service) _ done in
    let (cs', last, others, final) = carry-ok (update_all machine rest middle) _ more in
    let step = update-IsWrite machine key v p service middle c plain same r first in
    let later =
      update_all-replay machine rest middle last cs' step.same_rows
        (All-IsTyped service middle rest step.same_types all) others in
    ap (view machine) (sym (ap (λ (x : Outcome (List Config) × ConfigService). x.1) final))
    ∙ later
    ∙ replay-same service middle rest (view machine middle) step.same_types
    ∙ ap (replay service rest) (fun_ext step.overrides)
    ∙ ap (λ o. replay service rest (written o key (view machine service))) (sym r)

-- Where the rows in memory are those of the table, updates with keys of two parts and values of their
-- variables' types, other than the empty text, refine writes of a map: if all of them return, `get`
-- gives for each key, of a variable or not, what the map gives after the writes in their order.
pub update_many-replay :
    (machine : Machine) (updates : List (List ℕ × Value)) (service service' : ConfigService)
    (cs : List Config)
    → service.config_variables ≡ service.rows
    → All (IsTyped service) updates
    → update_many machine updates service ≡ (ok cs, service')
    → view machine service' ≡ replay service updates (view machine service)
unfolding update_many
update_many-replay machine updates service service' cs same all done =
    elim (Bool-cases (is_edit_allowed service)) [
      | inl on ↦ update_all-replay machine updates service service' cs same all (rw on at done)
      | inr off ↦ let refused = rw off at done in cc
    ]
