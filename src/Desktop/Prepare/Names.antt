-- ===== src/Desktop/Prepare/Names.antt =====
-- No two files are uploaded under one name, and none under the name of a file that it does not replace.
use i_transfer.Base.{
  ℕ, ◌≤◌, ◌≡◌, refl, ap, sym, ◌∙◌, ◌⊎◌, inl, inr, Bool, true, false, ◌||◌, none, some, List, [],
  ◌∷◌, ◌++◌, map, select, count, All, length, eqb, Bool-cases, Option-cases, arith,
}
use mathlib.Core.Option
use i_transfer.Desktop.Upload.{UploadItem}
use i_transfer.Desktop.Prepare.{
  ShareFile, SelectedFile, UploadConflictResolution, cancel, rename, replace, existing_by_name,
  selected_name_count, is_conflict, unique, conflict_names, create_available_upload_name,
  upload_item, set_item, replacements, renamed_items, resolve_conflict, prepare_upload_items,
}
use i_transfer.File.Name.{name_eq, has, create_available_file_name}
use i_transfer.File.Name.Available.{name_eq_iff, has-create_available_file_name}

abbrev pub names : List UploadItem → List (List ℕ)
names items = map (λ i. i.upload_name) items

abbrev pub HasDistinctNames : List UploadItem → Type 0
HasDistinctNames [] = Unit
HasDistinctNames (i ∷ items) = (has (names items) i.upload_name ≡ false) × HasDistinctNames items

-- No file of the share has the item's name, or the item replaces the last one that has it.
abbrev pub IsPlaced : List ShareFile → UploadItem → Type 0
IsPlaced share_files i =
    (has (map (λ f. f.name) share_files) i.upload_name ≡ false)
    ⊎ ((f : ShareFile) × (existing_by_name share_files i.upload_name ≡ some f)
        × (i.replace_file_id ≡ some f.id))

-- The client chooses a name as the backend does.
create_available_upload_name-eq :
    (name : List ℕ) (used : List (List ℕ))
    → create_available_upload_name name used ≡ create_available_file_name name used
unfolding create_available_upload_name create_available_file_name
create_available_upload_name-eq name used = refl

has-append : (xs ys : List (List ℕ)) (n : List ℕ) → has (xs ++ ys) n ≡ has xs n || has ys n
unfolding has
has-append [] ys n = refl
has-append (x ∷ xs) ys n = ground (arith, has-append xs ys n)

pub name_eq_flip : (a b : List ℕ) → name_eq a b ≡ false → name_eq b a ≡ false
name_eq_flip a b h = ground (arith, name_eq_iff a b, name_eq_iff b a)

existing_by_name-none :
    (share_files : List ShareFile) (n : List ℕ)
    → existing_by_name share_files n ≡ none
    → has (map (λ f. f.name) share_files) n ≡ false
unfolding existing_by_name has
existing_by_name-none [] n h = refl
existing_by_name-none (f ∷ files) n h = ground (arith, existing_by_name-none files n)

-- Replacing.
has-set_item :
    (new : UploadItem) (items : List UploadItem) (n : List ℕ)
    → name_eq new.upload_name n ≡ false
    → has (names items) n ≡ false
    → has (names (set_item new items)) n ≡ false
unfolding set_item has
has-set_item new [] n h g = ground arith
has-set_item new (i ∷ items) n h g = ground (arith, has-set_item new items n h)

set_item-HasDistinctNames :
    (new : UploadItem) (items : List UploadItem)
    → HasDistinctNames items
    → HasDistinctNames (set_item new items)
unfolding set_item has
set_item-HasDistinctNames new [] d = (refl, tt)
set_item-HasDistinctNames new (i ∷ items) (free, d) =
    elim (Bool-cases (name_eq i.upload_name new.upload_name)) [
      | inl hit ↦ rw hit (
        ap (has (names items)) (sym ((name_eq_iff i.upload_name new.upload_name).0 hit)) ∙ free,
        d,
      )
      | inr miss ↦ rw miss (
        has-set_item new items i.upload_name (name_eq_flip i.upload_name new.upload_name miss) free,
        set_item-HasDistinctNames new items d,
      )
    ]

set_item-All :
    (P : UploadItem → Type 0) (new : UploadItem) (items : List UploadItem)
    → P new
    → All P items
    → All P (set_item new items)
unfolding set_item
set_item-All P new [] p all = (p, tt)
set_item-All P new (i ∷ items) p (here, all) =
    elim (Bool-cases (name_eq i.upload_name new.upload_name)) [
      | inl hit ↦ rw hit (p, all)
      | inr miss ↦ rw miss (here, set_item-All P new items p all)
    ]

replacing-IsPlaced :
    (share_files : List ShareFile) (f : SelectedFile)
    → IsPlaced share_files (
        upload_item f f.name
          (Option.map (λ (g : ShareFile). g.id) (existing_by_name share_files f.name)))
replacing-IsPlaced share_files f = elim (Option-cases (existing_by_name share_files f.name)) [
  | inl missing ↦ inl (existing_by_name-none share_files f.name missing)
  | inr (g, found) ↦ inr (g, found, ap (Option.map (λ (x : ShareFile). x.id)) found)
]

-- Items that may be uploaded together.
pub record IsPrepared (share_files : List ShareFile) (items : List UploadItem) : Type 0 where
  pub distinct : HasDistinctNames items
  pub placed : All (IsPlaced share_files) items

replacements-IsPrepared :
    (share_files : List ShareFile) (files : List SelectedFile) (items : List UploadItem)
    → IsPrepared share_files items
    → IsPrepared share_files (replacements share_files files items)
unfolding replacements
replacements-IsPrepared share_files [] items p = p
replacements-IsPrepared share_files (f ∷ files) items p =
    replacements-IsPrepared share_files files _ (record {
      distinct = set_item-HasDistinctNames _ items p.distinct;
      placed =
          set_item-All (IsPlaced share_files) _ items (replacing-IsPlaced share_files f) p.placed;
    })

-- Renaming.
has-create_available_upload_name :
    (name : List ℕ) (used : List (List ℕ))
    → has used (create_available_upload_name name used) ≡ false
has-create_available_upload_name name used =
    ap (has used) (create_available_upload_name-eq name used)
    ∙ has-create_available_file_name name used

-- The names that a renaming chooses are none of those in use.
renamed_items-free :
    (files : List SelectedFile) (used : List (List ℕ))
    → All (λ i. has used i.upload_name ≡ false) (renamed_items used files)
unfolding renamed_items
renamed_items-free [] used = tt
renamed_items-free (f ∷ files) used = (
  has-create_available_upload_name f.name used,
  later (create_available_upload_name f.name used) used _
      (renamed_items-free files (used ++ (create_available_upload_name f.name used ∷ []))),
)
  where
    later :
        (name : List ℕ) (used' : List (List ℕ)) (items : List UploadItem)
        → All (λ i. has (used' ++ (name ∷ [])) i.upload_name ≡ false) items
        → All (λ i. has used' i.upload_name ≡ false) items
    later name used' [] all = tt
    later name used' (i ∷ items) (here, all) =
        (ground (arith, has-append used' (name ∷ []) i.upload_name), later name used' items all)

unlike-renamed_items :
    (name : List ℕ) (used : List (List ℕ)) (items : List UploadItem)
    → All (λ i. has (used ++ (name ∷ [])) i.upload_name ≡ false) items
    → has (names items) name ≡ false
unfolding has
unlike-renamed_items name used [] all = refl
unlike-renamed_items name used (i ∷ items) (here, all) =
    let other : name_eq name i.upload_name ≡ false =
      ground (arith, has-append used (name ∷ []) i.upload_name) in
    rw (name_eq_flip name i.upload_name other) (unlike-renamed_items name used items all)

renamed_items-HasDistinctNames :
    (files : List SelectedFile) (used : List (List ℕ)) → HasDistinctNames (renamed_items used files)
unfolding renamed_items
renamed_items-HasDistinctNames [] used = tt
renamed_items-HasDistinctNames (f ∷ files) used =
    let name = create_available_upload_name f.name used in
    (
      unlike-renamed_items name used _ (renamed_items-free files (used ++ (name ∷ []))),
      renamed_items-HasDistinctNames files (used ++ (name ∷ [])),
    )

free-IsPlaced :
    (share_files : List ShareFile) (items : List UploadItem)
    → All (λ i. has (map (λ f. f.name) share_files) i.upload_name ≡ false) items
    → All (IsPlaced share_files) items
free-IsPlaced share_files [] all = tt
free-IsPlaced share_files (i ∷ items) (here, all) = (inl here, free-IsPlaced share_files items all)

-- No conflict.
eqb→eq : (m n : ℕ) → eqb m n ≡ true → m ≡ n
eqb→eq m n h = ground arith

select-nil :
    (p : SelectedFile → Bool) (files : List SelectedFile)
    → select p files ≡ []
    → All (λ f. p f ≡ false) files
unfolding select
select-nil p [] h = tt
select-nil p (f ∷ files) h = elim (Bool-cases (p f)) [
  | inl hit ↦ let some_one = rw hit at h in absurd (cc)
  | inr miss ↦ (miss, select-nil p files (rw miss at h))
]

unique-nil :
    (files : List SelectedFile)
    → eqb (length (unique (map (λ f. f.name) files))) 0 ≡ true
    → files ≡ []
unfolding unique
unique-nil [] h = refl
unique-nil (f ∷ files) h = absurd (omega (arith, eqb→eq _ _ h))

conflict_names-nil :
    (share_files : List ShareFile) (files : List SelectedFile)
    → eqb (length (conflict_names share_files files)) 0 ≡ true
    → All (λ f. is_conflict share_files files f ≡ false) files
unfolding conflict_names unique
conflict_names-nil share_files files h =
    select-nil (is_conflict share_files files) files
      (unique-nil (select (is_conflict share_files files) files) h)

plain : List SelectedFile → List UploadItem
plain files = map (λ f. upload_item f f.name none) files

count-has :
    (files : List SelectedFile) (n : List ℕ)
    → selected_name_count files n ≡ 0
    → has (names (plain files)) n ≡ false
unfolding plain has count
count-has [] n h = refl
count-has (f ∷ files) n h = ground (arith, count-has files n)

-- Of a part of the files, where no name comes up twice in all of them.
plain-HasDistinctNames :
    (share_files : List ShareFile) (all files : List SelectedFile)
    → ((n : List ℕ) → selected_name_count files n ≤ selected_name_count all n)
    → All (λ f. is_conflict share_files all f ≡ false) files
    → HasDistinctNames (plain files)
unfolding plain count
plain-HasDistinctNames share_files all [] part free = tt
plain-HasDistinctNames share_files all (f ∷ files) part (here, free) = (
  count-has files f.name (
      let same : name_eq f.name f.name ≡ true = (name_eq_iff f.name f.name).1 refl in
      ground (arith, part f.name)),
  plain-HasDistinctNames share_files all files (λ n. ground (arith, part n)) free,
)

plain-IsFree :
    (share_files : List ShareFile) (all files : List SelectedFile)
    → All (λ f. is_conflict share_files all f ≡ false) files
    → All (λ i. has (map (λ f. f.name) share_files) i.upload_name ≡ false) (plain files)
unfolding plain
plain-IsFree share_files all [] free = tt
plain-IsFree share_files all (f ∷ files) (here, free) = (
  elim (Option-cases (existing_by_name share_files f.name)) [
    | inl missing ↦ existing_by_name-none share_files f.name missing
    | inr (g, found) ↦ let conflict = rw found at here in absurd (cc)
  ],
  plain-IsFree share_files all files free,
)

resolve_conflict-IsPrepared :
    (resolution : UploadConflictResolution) (share_files : List ShareFile)
    (files : List SelectedFile)
    → IsPrepared share_files (resolve_conflict resolution share_files files)
unfolding resolve_conflict
resolve_conflict-IsPrepared cancel share_files files = record { distinct = tt; placed = tt }
resolve_conflict-IsPrepared replace share_files files =
    replacements-IsPrepared share_files files [] (record { distinct = tt; placed = tt })
resolve_conflict-IsPrepared rename share_files files = record {
  distinct = renamed_items-HasDistinctNames files (map (λ f. f.name) share_files);
  placed = free-IsPlaced share_files _ (renamed_items-free files (map (λ f. f.name) share_files));
}

-- Whatever files are chosen and however the user resolves a conflict of names, the files that are
-- uploaded have distinct names, and each has a name that no file of the share has, or replaces the
-- last file of the share that has it.
pub prepare_upload_items-IsPrepared :
    (ask : List (List ℕ) → UploadConflictResolution) (share_files : List ShareFile)
    (files : List SelectedFile)
    → IsPrepared share_files (prepare_upload_items ask share_files files)
unfolding prepare_upload_items plain
prepare_upload_items-IsPrepared ask share_files files =
    elim (Bool-cases (eqb (length (conflict_names share_files files)) 0)) [
      | inl none_left ↦
          let free = conflict_names-nil share_files files none_left in
          rw none_left (record {
            distinct = plain-HasDistinctNames share_files files files (λ n. omega arith) free;
            placed = free-IsPlaced share_files _ (plain-IsFree share_files files files free);
          })
      | inr conflicts ↦
          rw conflicts
            (resolve_conflict-IsPrepared (ask (conflict_names share_files files)) share_files files)
    ]
