-- ===== src/Migration/Disk/Reads.antt =====
-- What a file of a directory holds after a directory was removed, copied or renamed.
use mathlib.Core.Option
use i_transfer.Base.{
  ◌≡◌, refl, ap, Bool, true, false, ◌&&◌, Option, none, List, [], ◌∷◌, ◌++◌, map, ℕ, find?, select,
  delete_where, update_where, find?-delete_where, arith, Bool-cases, inl, inr, eq_iff, eq_refl,
  is_some, if◌then◌else◌,
}
use i_transfer.File.Upload.{bytes_at, is_at}
use i_transfer.Migration.Disk.{exists, is_in, moved_to}
use i_transfer.Storage.{same_directory}
use i_transfer.World.{World, Directory, Blob, Entry}

-- The bytes at a place of a list of files.
abbrev pub at : List Blob → Directory → Entry → Option (List ℕ)
at disk d e = Option.map (λ b. b.bytes) (find? (is_at d e) disk)

pub same_directory_refl : (d : Directory) → same_directory d d ≡ true
same_directory_refl d = ground (arith, eq_refl d.root, eq_refl d.share_id)

pub same_directory_eq : (a b : Directory) → same_directory a b ≡ true → a ≡ b
same_directory_eq a b h = ground (arith, eq_iff a.root b.root, eq_iff a.share_id b.share_id)

pub same_directory_flip :
    (a b : Directory) → same_directory a b ≡ false → same_directory b a ≡ false
same_directory_flip a b h = ground (
  arith,
  eq_iff a.root b.root,
  eq_iff a.share_id b.share_id,
  eq_iff b.root a.root,
  eq_iff b.share_id a.share_id,
)

at-none :
    (disk : List Blob) (d : Directory) (e : Entry)
    → is_some (find? (is_in d) disk) ≡ false
    → at disk d e ≡ none
unfolding find?
at-none [] d e h = refl
at-none (b ∷ disk) d e h = ground (arith, at-none disk d e)

pub exists-at : (w : World) (d : Directory) (e : Entry) → exists w d ≡ false → bytes_at w d e ≡ none
unfolding exists bytes_at
exists-at w d e h = at-none w.disk d e (ground arith)

elsewhere :
    (a d x : Directory)
    → same_directory d x ≡ false
    → same_directory a d ≡ true
    → same_directory a x ≡ false
elsewhere a d x other here = rw (same_directory_eq a d here) other

-- Removing files of another directory.
pub at-remove_other :
    (x : Directory) (done : Entry → Bool) (disk : List Blob) (d : Directory) (e : Entry)
    → same_directory d x ≡ false
    → at (delete_where (λ b. is_in x b && done b.entry) disk) d e ≡ at disk d e
at-remove_other x done disk d e other = ap (Option.map (λ b. b.bytes)) (
    find?-delete_where (is_at d e) (λ b. is_in x b && done b.entry) disk
      (λ b here. ground (arith, elsewhere b.directory d x other)))

pub at-remove_whole :
    (x : Directory) (disk : List Blob) (d : Directory) (e : Entry)
    → same_directory d x ≡ false
    → at (delete_where (is_in x) disk) d e ≡ at disk d e
at-remove_whole x disk d e other = ap (Option.map (λ b. b.bytes)) (
    find?-delete_where (is_at d e) (is_in x) disk
      (λ b here. ground (arith, elsewhere b.directory d x other)))

pub at-remove_self :
    (x : Directory) (disk : List Blob) (e : Entry) → at (delete_where (is_in x) disk) x e ≡ none
unfolding find? delete_where
at-remove_self x [] e = refl
at-remove_self x (b ∷ disk) e = ground (arith, at-remove_self x disk e)

-- Copying.
find?-append :
    (q : Blob → Bool) (xs ys : List Blob)
    → find? q (xs ++ ys) ≡ (if is_some (find? q xs) then find? q xs else find? q ys)
unfolding find?
find?-append q [] ys = refl
find?-append q (x ∷ xs) ys = ground (arith, find?-append q xs ys)

moved-other :
    (x : Directory) (ys : List Blob) (d : Directory) (e : Entry)
    → same_directory x d ≡ false
    → find? (is_at d e) (map (moved_to x) ys) ≡ none
unfolding find?
moved-other x [] d e other = refl
moved-other x (b ∷ ys) d e other = ground (arith, other, moved-other x ys d e other)

pub at-copy_other :
    (x : Directory) (ys disk : List Blob) (d : Directory) (e : Entry)
    → same_directory x d ≡ false
    → at (disk ++ map (moved_to x) ys) d e ≡ at disk d e
at-copy_other x ys disk d e other =
    ground (arith, find?-append (is_at d e) disk (map (moved_to x) ys), moved-other x ys d e other)

moved-at :
    (from to : Directory) (disk : List Blob) (e : Entry)
    → at (map (moved_to to) (select (is_in from) disk)) to e ≡ at disk from e
unfolding find? select
moved-at from to [] e = refl
moved-at from to (b ∷ disk) e = ground (arith, same_directory_refl to, moved-at from to disk e)

pub at-copy :
    (from to : Directory) (disk : List Blob) (e : Entry)
    → at disk to e ≡ none
    → at (disk ++ map (moved_to to) (select (is_in from) disk)) to e ≡ at disk from e
at-copy from to disk e empty = ground (
  arith,
  find?-append (is_at to e) disk (map (moved_to to) (select (is_in from) disk)),
  moved-at from to disk e,
)

-- Renaming.
pub at-rename :
    (from to : Directory) (disk : List Blob) (e : Entry)
    → same_directory from to ≡ false
    → at disk to e ≡ none
    → at (update_where (is_in from) (moved_to to) disk) to e ≡ at disk from e
unfolding find? update_where
at-rename from to [] e other empty = refl
at-rename from to (b ∷ disk) e other empty =
    ground (arith, same_directory_refl to, at-rename from to disk e other)

pub at-rename_other :
    (from to : Directory) (disk : List Blob) (d : Directory) (e : Entry)
    → same_directory d from ≡ false
    → same_directory to d ≡ false
    → at (update_where (is_in from) (moved_to to) disk) d e ≡ at disk d e
unfolding find? update_where
at-rename_other from to [] d e apart other = refl
at-rename_other from to (b ∷ disk) d e apart other = elim (Bool-cases (is_in from b)) [
  | inl renamed ↦
      let there : same_directory b.directory d ≡ false =
        rw (same_directory_eq b.directory from renamed) (same_directory_flip d from apart) in
      ground (arith, renamed, there, other, at-rename_other from to disk d e apart other)
  | inr left ↦ ground (arith, left, at-rename_other from to disk d e apart other)
]
