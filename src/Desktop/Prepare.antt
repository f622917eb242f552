-- ===== src/Desktop/Prepare.antt =====
-- The names under which the desktop application uploads files: `prepareUploadItems` and
-- `createAvailableUploadName` of desktop/src/main.ts. The user's answer to a conflict is an argument.
pub mod Names
use i_transfer.Base.{
  ℕ, suc, ◌+◌, String, Bool, true, false, ◌&&◌, ◌||◌, Option, none, some, List, [], ◌∷◌, ◌++◌, map,
  select, count, is_some, length, eqb, ltb, if◌then◌else◌,
}
use mathlib.Core.Option
use i_transfer.Desktop.Upload.{UploadItem}
use i_transfer.File.Name.{name_eq, has, base_and_extension, candidate, search_from}

-- `ShareFile`
pub record ShareFile : Type 0 where
  pub id : String
  pub name : List ℕ

-- A `File` that the user chose.
pub record SelectedFile : Type 0 where
  pub name : List ℕ
  pub bytes : List ℕ

-- `UploadConflictResolution`
pub data UploadConflictResolution : Type 0 where
  cancel rename replace : UploadConflictResolution

-- `existingByName.get(name)`: of two files of a name the map has the last.
unfoldable pub existing_by_name : List ShareFile → List ℕ → Option ShareFile
existing_by_name [] name = none
existing_by_name (f ∷ files) name = elim (existing_by_name files name) [
  | some g ↦ some g
  | none ↦ if name_eq f.name name then some f else none
]

-- `selectedNameCounts.get(name)`
abbrev pub selected_name_count : List SelectedFile → List ℕ → ℕ
selected_name_count files name = count (λ f. name_eq f.name name) files

abbrev pub is_conflict : List ShareFile → List SelectedFile → SelectedFile → Bool
is_conflict share_files files f =
    is_some (existing_by_name share_files f.name) || ltb 1 (selected_name_count files f.name)

-- `Array.from(new Set(names))`
unique : List (List ℕ) → List (List ℕ)
unique [] = []
unique (name ∷ names) = name ∷ select (λ n. if name_eq n name then false else true) (unique names)

unfoldable pub conflict_names : List ShareFile → List SelectedFile → List (List ℕ)
unfolding unique
conflict_names share_files files =
    unique (map (λ f. f.name) (select (is_conflict share_files files) files))

-- `createAvailableUploadName`
unfoldable pub create_available_upload_name : List ℕ → List (List ℕ) → List ℕ
unfolding has base_and_extension candidate search_from
create_available_upload_name name used =
    if has used name
    then (let (basename, extension) = base_and_extension name in
        search_from (length used) used (candidate basename extension) 2)
    else name

abbrev pub upload_item : SelectedFile → (upload_name : List ℕ) → Option String → UploadItem
upload_item f upload_name replace_file_id = record {
  file = f.bytes;
  upload_name = upload_name;
  replace_file_id = replace_file_id;
}

-- `replacements.set(file.name, …)`: a name that is there keeps its place.
unfoldable pub set_item : UploadItem → List UploadItem → List UploadItem
set_item new [] = new ∷ []
set_item new (i ∷ items) =
    let rest = set_item new items in
    if name_eq i.upload_name new.upload_name then new ∷ items else i ∷ rest

replacements : List ShareFile → List SelectedFile → List UploadItem → List UploadItem
replacements share_files [] items = items
replacements share_files (f ∷ files) items = replacements share_files files (
    set_item
      (upload_item f f.name
        (Option.map (λ (g : ShareFile). g.id) (existing_by_name share_files f.name)))
      items)

-- The loop of a renaming, with the names in use.
renamed_items : List (List ℕ) → List SelectedFile → List UploadItem
renamed_items used [] = []
renamed_items used (f ∷ files) =
    let name = create_available_upload_name f.name used in
    upload_item f name none ∷ renamed_items (used ++ (name ∷ [])) files

resolve_conflict : UploadConflictResolution → List ShareFile → List SelectedFile → List UploadItem
unfolding replacements renamed_items
resolve_conflict cancel share_files files = []
resolve_conflict replace share_files files = replacements share_files files []
resolve_conflict rename share_files files = renamed_items (map (λ f. f.name) share_files) files

-- `prepareUploadItems`
unfoldable pub prepare_upload_items :
    (ask : List (List ℕ) → UploadConflictResolution)
    → List ShareFile
    → List SelectedFile
    → List UploadItem
unfolding resolve_conflict
prepare_upload_items ask share_files files =
    let conflicts = conflict_names share_files files in
    if eqb (length conflicts) 0
    then map (λ f. upload_item f f.name none) files
    else resolve_conflict (ask conflicts) share_files files
