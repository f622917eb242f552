-- ===== src/Examples/Files.antt =====
-- The theorems on files and mails at concrete inputs.
use i_transfer.Base.{
  ℕ, String, Bool, true, false, ◌+◌, ◌≡◌, refl, Option, none, some, List, [], ◌∷◌, map, arith,
}
use i_transfer.Env.{Env}
use i_transfer.Examples.{env_signing, docs, inbox, world}
use i_transfer.File.Edit.{rename_local, other_names}
use i_transfer.File.Name.{has, create_available_file_name}
use i_transfer.File.Name.Available.{has-create_available_file_name}
use i_transfer.File.Upload.{Chunk, FileQuery, Arrival, create}
use i_transfer.File.Upload.Acceptance.{IsAccepted, create-IsAccepted, create_refused}
use i_transfer.Guard.Upload.{rights}
use i_transfer.Share.Token.{owner_claims}
use i_transfer.World.{World, File, clean, ok, throws, unexpected_chunk}

abbrev env : Env
env = env_signing (owner_claims docs)

-- "a.b" and "a (2).b" in UTF-16
abbrev a_b : List ℕ
a_b = 97 ∷ 46 ∷ 98 ∷ []

abbrev a_2_b : List ℕ
a_2_b = 97 ∷ 32 ∷ 40 ∷ 50 ∷ 41 ∷ 46 ∷ 98 ∷ []

abbrev report : File
report = record { id = "report"; name = a_b; size = 2; scan_status = clean; share_id = "inbox" }

abbrev notes : File
notes = record { id = "notes"; name = 98 ∷ []; size = 2; scan_status = clean; share_id = "inbox" }

abbrev stocked : World
stocked = record world { files = report ∷ notes ∷ [] }

abbrev query : FileQuery
query = record { id = none; name = a_b; replace_file_id = none }

abbrev arrival : Arrival
arrival = record {
  bytes = 1 ∷ 2 ∷ 3 ∷ [];
  fresh_id = "fresh";
  is_valid_uuid = λ _. true;
  available_space = 50;
}

abbrev first_of_two : Chunk
first_of_two = record { index = 0; total = 2 }

abbrev second_of_three : Chunk
second_of_three = record { index = 1; total = 3 }

named : create_available_file_name a_b (a_b ∷ []) ≡ a_2_b
unfolding create_available_file_name
named = refl

uploaded : create env arrival first_of_two query "inbox" (rights inbox false) stocked ≡ (
  ok ("fresh", a_2_b),
  (create env arrival first_of_two query "inbox" (rights inbox false) stocked).1,
)
unfolding create i_transfer.File.Upload.plan_upload i_transfer.File.Upload.file_id_of
    i_transfer.World.find_share i_transfer.Base.find? i_transfer.Storage.assert_share_is_not_locked
    i_transfer.Storage.is_locked i_transfer.File.Upload.replacement_of rights
    i_transfer.File.Upload.expected_chunk_index i_transfer.File.Upload.make_plan
    i_transfer.File.Upload.bytes_of i_transfer.File.Upload.bytes_at
    i_transfer.File.Upload.check_sizes i_transfer.File.Upload.exceeds_share_size
    i_transfer.World.reverse_share_of i_transfer.Base.total i_transfer.World.files_of
    i_transfer.Base.delete_where i_transfer.Base.select i_transfer.Base.update_where
    i_transfer.File.Name.base_and_extension i_transfer.File.Name.candidate
    create_available_file_name i_transfer.File.Name.decimal i_transfer.File.Name.drop has
    i_transfer.File.Name.last_dot i_transfer.File.Name.name_eq i_transfer.File.Name.search_from
    i_transfer.File.Name.take i_transfer.File.Upload.exceeds_quota i_transfer.File.Upload.kept_files
    i_transfer.File.Upload.remove_file i_transfer.File.Upload.store_file
    i_transfer.File.Upload.user_storage_usage i_transfer.File.Upload.versioned_files
    i_transfer.File.Upload.write_chunk i_transfer.Storage.resolve_share_directory
    i_transfer.World.creator_of i_transfer.World.find_file i_transfer.World.find_reverse_share
    i_transfer.World.find_user i_transfer.World.update_share i_transfer.Migration.Disk.exists
uploaded = refl

too_early : create env arrival second_of_three query "inbox" (rights inbox false) stocked ≡ (
  throws (unexpected_chunk 0),
  (create env arrival second_of_three query "inbox" (rights inbox false) stocked).1,
)
unfolding create i_transfer.File.Upload.plan_upload i_transfer.File.Upload.file_id_of
    i_transfer.World.find_share i_transfer.Base.find? i_transfer.Storage.assert_share_is_not_locked
    i_transfer.Storage.is_locked i_transfer.File.Upload.replacement_of rights
    i_transfer.File.Upload.expected_chunk_index i_transfer.File.Upload.make_plan
    i_transfer.File.Upload.bytes_of i_transfer.File.Upload.bytes_at
too_early = refl

renamed :
    rename_local "inbox" "notes" (some a_b) stocked
    ≡ (ok (record notes { name = a_2_b }), (rename_local "inbox" "notes" (some a_b) stocked).1)
unfolding rename_local i_transfer.Text.trim i_transfer.File.Edit.find_file_of i_transfer.Base.find?
    i_transfer.World.update_file i_transfer.World.find_file i_transfer.World.find_share
    create_available_file_name other_names i_transfer.Base.select i_transfer.World.files_of
renamed = refl

has-create_available_file_name_example :
    has (a_b ∷ []) (create_available_file_name a_b (a_b ∷ [])) ≡ false
has-create_available_file_name_example = has-create_available_file_name a_b (a_b ∷ [])

create-IsAccepted_example :
    IsAccepted env arrival first_of_two query "inbox" (rights inbox false) stocked ("fresh", a_2_b)
create-IsAccepted_example =
    create-IsAccepted env arrival first_of_two query "inbox" (rights inbox false) stocked
      (create env arrival first_of_two query "inbox" (rights inbox false) stocked).1
      ("fresh", a_2_b) uploaded

more_to_come : ¬ (1 + 1 ≡ 3)
more_to_come = λ same. absurd (omega arith)

create_refused_example :
    (create env arrival second_of_three query "inbox" (rights inbox false) stocked).1 ≡ stocked
create_refused_example =
    create_refused env arrival second_of_three query "inbox" (rights inbox false) stocked
      (create env arrival second_of_three query "inbox" (rights inbox false) stocked).1
      (unexpected_chunk 0) too_early more_to_come
