-- ===== src/Config/Within.antt =====
-- A variable of type number within its bounds, before and after a write that was checked.
use mathlib.Core.Option
use mathlib.Core.Path.{fun_ext}
use i_transfer.Base.{
  ℕ, ◌≡◌, ◌≢◌, refl, ap, sym, ◌∙◌, inl, inr, Bool, true, false, Option, none, some, List, [], ◌∷◌,
  find?, find?-holds, find?-update_where, update_where, Bool-cases, if◌then◌else◌, arith, get_or, ℤ,
}
use i_transfer.Config.{Config, is_named, key_of}
use i_transfer.Config.Validation.{Value, to_string, accepted_value, num_value, is_between}
use i_transfer.Config.Keys.{HasParts, key_of-is_named}
use i_transfer.Config.Updates.{set_value}
use i_transfer.File.Name.{name_eq}
use i_transfer.File.Name.Available.{name_eq_iff}
use i_transfer.Text.Numbers.{parse_int, parse_int-print_int}

-- The row of this key is of type number, and its value lies between the two.
pub record IsWithin (low high : ℕ) (key : List ℕ) (rows : List Config) : Type 0 where
  pub row : Config
  pub found : find? (λ c. name_eq (key_of c) key) rows ≡ some row
  pub is_number : row.type ≡ "number"
  pub within : is_between low high (parse_int (get_or row.default_value row.value)) ≡ true

-- `parseInt` of `null`, `true` and `false` is `NaN`, which is within no bounds.
num_value-null : num_value none ≡ none
unfolding num_value parse_int
num_value-null = refl

num_value-boolean : (b : Bool) → num_value (some (Value.boolean b)) ≡ none
unfolding num_value parse_int to_string
num_value-boolean true = refl
num_value-boolean false = refl

num_value-number : (z : ℤ) → num_value (some (Value.number z)) ≡ some z
unfolding num_value
num_value-number z = refl

within-some :
    (low high : ℕ) {value v : Option Value}
    → value ≡ v
    → num_value v ≡ none
    → is_between low high (num_value value) ≢ true
unfolding is_between
within-some low high {value} {v} same nan within =
    let out : is_between low high none ≡ true =
      ap (is_between low high) (sym (ap num_value same ∙ nan)) ∙ within in
    cc

-- A value that a variable of type number takes, if it is within bounds, is printed within bounds.
accepted-within :
    (low high : ℕ) (default : List ℕ) (v : Value) {value : Option Value}
    → accepted_value "number" v ≡ some value
    → is_between low high (num_value value) ≡ true
    → is_between low high (parse_int (get_or default (Option.map to_string value))) ≡ true
unfolding to_string accepted_value
accepted-within low high default (Value.number z) {value} accepted within =
    let same : value ≡ some (Value.number z) = ground arith in
    ap (λ x. is_between low high (parse_int (get_or default (Option.map to_string x)))) same
    ∙ ap (is_between low high)
        (parse_int-print_int z ∙ sym (num_value-number z) ∙ ap num_value (sym same))
    ∙ within
accepted-within low high default (Value.boolean b) {value} accepted within =
    let same : value ≡ some (Value.boolean b) = ground arith in
    absurd (within-some low high same (num_value-boolean b) within)
accepted-within low high default (Value.text []) {value} accepted within =
    let same : value ≡ none = ground arith in
    absurd (within-some low high same num_value-null within)
accepted-within low high default (Value.text (c ∷ cs)) accepted within = cc

module _ (low high : ℕ) (bounded : List ℕ) where
  -- A write by another key, and a write by this one with a value that was checked.
  pub written-IsWithin :
      (key category' name' : List ℕ) (v : Value) (value : Option Value) (rows : List Config)
      {row : Config}
      → HasParts key category' name'
      → find? (is_named category' name') rows ≡ some row
      → accepted_value row.type v ≡ some value
      → (key ≡ bounded → is_between low high (num_value value) ≡ true)
      → IsWithin low high bounded rows
      → IsWithin low high bounded (update_where (is_named category' name') (set_value value) rows)
  written-IsWithin key category' name' v value rows {row} parts found accepted checked w =
      elim (Bool-cases (is_named category' name' w.row)) [
        | inr other ↦ record {
          row = w.row;
          found =
              after
              ∙ ap (Option.map write) w.found
              ∙ ap (λ b. some (if b then set_value value w.row else w.row)) other;
          is_number = w.is_number;
          within = w.within;
        }
        | inl hit ↦ record {
          row = set_value value w.row;
          found =
              after
              ∙ ap (Option.map write) w.found
              ∙ ap (λ b. some (if b then set_value value w.row else w.row)) hit;
          is_number = w.is_number;
          within =
              accepted-within low high w.row.default_value v
                (ap (λ t. accepted_value t v)
                    (sym w.is_number ∙ ap (λ (x : Config). x.type) (the_row hit))
                  ∙ accepted)
                (checked (the_key hit));
        }
      ]
    where
      write : Config → Config
      write x = if is_named category' name' x then set_value value x else x

      after :
          find?
            (λ c. name_eq (key_of c) bounded)
            (update_where (is_named category' name') (set_value value) rows)
          ≡ Option.map write (find? (λ c. name_eq (key_of c) bounded) rows)
      after =
          find?-update_where (λ c. name_eq (key_of c) bounded) (is_named category' name')
            (set_value value) rows (λ x. refl)

      the_key : is_named category' name' w.row ≡ true → key ≡ bounded
      the_key hit =
          sym (
            (name_eq_iff (key_of w.row) key).0
              (key_of-is_named key category' name' parts w.row ∙ hit))
          ∙ (name_eq_iff (key_of w.row) bounded).0
              (find?-holds (λ c. name_eq (key_of c) bounded) rows w.found)

      the_row : is_named category' name' w.row ≡ true → w.row ≡ row
      the_row hit =
          let both : some w.row ≡ some row =
            sym w.found
            ∙ ap (λ k. find? (λ c. name_eq (key_of c) k) rows) (sym (the_key hit))
            ∙ ap (λ test. find? test rows) (fun_ext (key_of-is_named key category' name' parts))
            ∙ found in
          cc
