-- ===== src/Examples/Configs.antt =====
-- The theorems on the configuration service at concrete inputs.
use i_transfer.Base.{All, ℕ, String, true, false, ◌≡◌, refl, none, some, List, [], ◌∷◌, pos}
use i_transfer.Config.{Config, ConfigService, get, update, update_many, key_of, is_named}
use i_transfer.Config.Validation.{Machine, Value}
use i_transfer.Config.Values.{Parsed}
use i_transfer.Config.Bounds.{
  IsBounded, InRange, update_many-IsBounded, id_length_key, compression_key,
}
use i_transfer.Config.Refinement.{IsTyped, view, replay, update_many-replay}
use i_transfer.Text.{codes}
use i_transfer.World.{ok}

abbrev machine : Machine
machine = record {
  is_absolute = λ path. true;
  is_root = λ path. false;
  is_writable = λ path. true;
  jwt_secret = 1 ∷ [];
}

abbrev variable_at : (name default : String) → Config
variable_at name default = record {
  category = codes "share";
  name = codes name;
  type = "number";
  default_value = codes default;
  value = none;
  secret = false;
  locked = false;
  order = 0;
}

abbrev fresh : ConfigService
fresh = record {
  rows = variable_at "shareIdLength" "8" ∷ variable_at "zipCompressionLevel" "9" ∷ [];
  config_variables = variable_at "shareIdLength" "8" ∷ variable_at "zipCompressionLevel" "9" ∷ [];
  yaml_config = none;
  missing_config_warnings = [];
}

-- The second update is refused.
abbrev updates : List (List ℕ × Value)
updates = (id_length_key, Value.number (pos 12)) ∷ (compression_key, Value.number (pos 10)) ∷ []

fresh-IsBounded : IsBounded fresh
unfolding i_transfer.Base.find? i_transfer.File.Name.name_eq i_transfer.Config.Validation.is_between
    i_transfer.Text.Numbers.parse_int
fresh-IsBounded = record {
  same = refl;
  id_length = record {
    row = variable_at "shareIdLength" "8";
    found = refl;
    is_number = refl;
    within = refl;
  };
  compression = record {
    row = variable_at "zipCompressionLevel" "9";
    found = refl;
    is_number = refl;
    within = refl;
  };
}

id_length_parts :
    i_transfer.Text.split_units b'.' id_length_key ≡ codes "share" ∷ codes "shareIdLength" ∷ []
unfolding i_transfer.Text.split_units
id_length_parts = refl

compression_parts :
    i_transfer.Text.split_units b'.' compression_key
    ≡ codes "share" ∷ codes "zipCompressionLevel" ∷ []
unfolding i_transfer.Text.split_units
compression_parts = refl

update_many-IsBounded_example :
    IsBounded (update_many machine updates fresh).1
    × InRange 2 50 (get machine id_length_key (update_many machine updates fresh).1).0
    × InRange 0 9 (get machine compression_key (update_many machine updates fresh).1).0
update_many-IsBounded_example =
    update_many-IsBounded machine updates fresh
      (
        (codes "share", codes "shareIdLength", id_length_parts),
        ((codes "share", codes "zipCompressionLevel", compression_parts), tt),
      )
      fresh-IsBounded

abbrev both : List (List ℕ × Value)
both = (id_length_key, Value.number (pos 12)) ∷ (compression_key, Value.number (pos 5)) ∷ []

abbrev both_done : ConfigService
both_done = (update_many machine both fresh).1

both_return : update_many machine both fresh ≡ (
  ok (
      record (variable_at "shareIdLength" "8") { value = some (codes "12") }
      ∷ record (variable_at "zipCompressionLevel" "9") { value = some (codes "5") }
      ∷ []),
  both_done,
)
unfolding update_many i_transfer.Base.update_where update i_transfer.Config.is_edit_allowed
    i_transfer.Text.split_units i_transfer.Base.find? i_transfer.File.Name.name_eq
    i_transfer.Config.Validation.is_between i_transfer.Config.Validation.accepted_value
    i_transfer.Config.Validation.validate_config_variable i_transfer.Config.Validation.to_string
    i_transfer.Text.Numbers.print_int i_transfer.File.Name.decimal
both_return = refl

both-IsTyped : All (IsTyped fresh) both
unfolding i_transfer.Base.find? i_transfer.File.Name.name_eq
both-IsTyped = (
  ((codes "share", codes "shareIdLength", id_length_parts), Parsed.number (pos 12), refl),
  (
    ((codes "share", codes "zipCompressionLevel", compression_parts), Parsed.number (pos 5), refl),
    tt,
  ),
)

update_many-replay_example : view machine both_done ≡ replay fresh both (view machine fresh)
update_many-replay_example =
    update_many-replay machine both fresh both_done
      (record (variable_at "shareIdLength" "8") { value = some (codes "12") }
        ∷ record (variable_at "zipCompressionLevel" "9") { value = some (codes "5") }
        ∷ [])
      refl both-IsTyped both_return

-- A key with a third part goes past the bounds.
unchecked : update machine (codes "share.shareIdLength.x") (Value.number (pos 99)) fresh ≡ (
  ok (record (variable_at "shareIdLength" "8") { value = some (codes "99") }),
  (update machine (codes "share.shareIdLength.x") (Value.number (pos 99)) fresh).1,
)
unfolding update i_transfer.Config.is_edit_allowed i_transfer.Text.split_units i_transfer.Base.find?
    i_transfer.File.Name.name_eq i_transfer.Config.Validation.is_between
    i_transfer.Config.Validation.accepted_value
    i_transfer.Config.Validation.validate_config_variable i_transfer.Config.Validation.to_string
    i_transfer.Text.Numbers.print_int i_transfer.File.Name.decimal
unchecked = refl
