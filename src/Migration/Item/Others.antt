-- ===== src/Migration/Item/Others.antt =====
-- What the migration of an item does to the files of the other shares.
use Prim.Native.Char.{Char, code}
use Prim.Native.String.{◌++◌}
use text.Mathlib.TextLemmas.{nil-append, cons-append}
use i_transfer.Base.{
  ◌≡◌, refl, ap, ◌∙◌, String, Bool, true, false, not, ◌&&◌, some, ◌==◌, eqb, eq_iff, Bool-cases,
  inl, inr, arith,
}
use i_transfer.Env.{Env}
use i_transfer.File.Upload.{bytes_at}
use i_transfer.Migration.{Machine, Faults, find_item}
use i_transfer.Migration.Disk.{
  Extent, whole, part, remove_tree, copy_tree, rename_tree, make_directory,
}
use i_transfer.Migration.Disk.Reads.{
  at-copy_other, at-remove_other, at-remove_whole, at-rename_other, same_directory_flip,
}
use i_transfer.Migration.Item.{
  item_share, migrate_item, set_path, source_directory, target_directory, temp_directory,
}
use i_transfer.Migration.Item.Keeps.{migrate_item-keeps}
use i_transfer.Storage.{resolve_share_directory, same_directory}
use i_transfer.World.{
  World, Share, Directory, Entry, StorageMigrationJobItem, find_share, find_share-id, update_share,
  find?-update_share,
}

abbrev dot : Char
dot = "."

-- An id without a dot: `CreateShareDTO` allows letters, digits, `_` and `-` only.
abbrev pub has_no_dot : String → Bool
has_no_dot String.[] = true
has_no_dot (String.◌∷◌ c text) = not (eqb (code c) b'.') && has_no_dot text

dotted :
    (a : String) (c : Char) (text : String)
    → eqb (code c) b'.' ≡ true
    → has_no_dot (a ++ String.◌∷◌ c text) ≡ false
dotted String.[] c text dot = rw (nil-append (String.◌∷◌ c text)) (ground (arith, dot))
dotted (String.◌∷◌ d a) c text dot =
    rw (cons-append d a (String.◌∷◌ c text)) (ground (arith, dotted a c text dot))

not_temp :
    (j id job_id : String) → has_no_dot j ≡ true → (j == (id ++ (".migration-" ++ job_id))) ≡ false
not_temp j id job_id plain = elim (Bool-cases (j == (id ++ (".migration-" ++ job_id)))) [
  | inr other ↦ other
  | inl same ↦
      let rest : String = "migration-" in
      let spelled : j ≡ id ++ String.◌∷◌ dot (rest ++ job_id) =
        (eq_iff j (id ++ (".migration-" ++ job_id))).0 same
        ∙ ap (λ x. id ++ x) (cons-append dot rest job_id) in
      let has_dot : has_no_dot j ≡ false =
        ap has_no_dot spelled ∙ dotted id dot (rest ++ job_id) refl in
      absurd (ground (arith, has_dot, plain))
]

-- The row of a share, and the files of a directory, are those of before.
pub record IsSame (j : String) (d : Directory) (before w : World) : Type 0 where
  pub row : find_share w j ≡ find_share before j
  pub held : (e : Entry) → bytes_at w d e ≡ bytes_at before d e

module _ (j : String) (d : Directory) (before : World) where
  remove_tree-IsSame :
      (x : Extent) (from : Directory) (w : World)
      → same_directory d from ≡ false
      → IsSame j d before w
      → IsSame j d before (remove_tree x from w).1
  unfolding remove_tree bytes_at find_share
  remove_tree-IsSame whole from w other same = record {
    row = same.row;
    held = λ e. at-remove_whole from w.disk d e other ∙ same.held e;
  }
  remove_tree-IsSame (part done) from w other same = record {
    row = same.row;
    held = λ e. at-remove_other from done w.disk d e other ∙ same.held e;
  }

  copy_tree-IsSame :
      (x : Extent) (from to : Directory) (w : World)
      → same_directory to d ≡ false
      → IsSame j d before w
      → IsSame j d before (copy_tree x from to w).1
  unfolding copy_tree make_directory bytes_at find_share
  copy_tree-IsSame whole from to w other same = record {
    row = same.row;
    held = λ e. at-copy_other to _ w.disk d e other ∙ same.held e;
  }
  copy_tree-IsSame (part done) from to w other same = record {
    row = same.row;
    held = λ e. at-copy_other to _ w.disk d e other ∙ same.held e;
  }

  rename_tree-IsSame :
      (works : Bool) (from to : Directory) (w : World)
      → same_directory d from ≡ false
      → same_directory to d ≡ false
      → IsSame j d before w
      → IsSame j d before (rename_tree works from to w).1
  unfolding rename_tree bytes_at find_share
  rename_tree-IsSame true from to w apart other same = record {
    row = same.row;
    held = λ e. at-rename_other from to w.disk d e apart other ∙ same.held e;
  }
  rename_tree-IsSame false from to w apart other same = record { row = same.row; held = same.held }

  make_directory-IsSame :
      (to : Directory) (w : World) → IsSame j d before w → IsSame j d before (make_directory to w)
  unfolding make_directory bytes_at find_share
  make_directory-IsSame to w same = record { row = same.row; held = same.held }

  set_path-IsSame :
      (works : Bool) (id root : String) (w : World)
      → (id == j) ≡ false
      → IsSame j d before w
      → IsSame j d before (set_path works id root w).1
  unfolding set_path update_share bytes_at find_share
  set_path-IsSame false id root w other same = record { row = same.row; held = same.held }
  set_path-IsSame true id root w other same = record {
    row = ground (
      arith,
      same.row,
      other,
      find?-update_share id j (λ s. record s { local_storage_path = some root }) w.shares
          (λ s. refl),
    );
    held = λ e. ground (arith, same.held e);
  }

-- Directories of shares with different names are different.
apart : (a b : Directory) → (a.share_id == b.share_id) ≡ false → same_directory a b ≡ false
apart a b h = ground (arith, h)

-- The migration of an item keeps every file and the row of every other share whose id has no dot,
-- whatever call of the file system or of the database fails.
pub migrate_item-IsSame :
    (env : Env) (machine : Machine) (faults : Faults) (w : World) (item : StorageMigrationJobItem)
    (item_id id j : String) (t : Share)
    → find_item w item_id ≡ some item
    → item.share_id ≡ some id
    → find_share w j ≡ some t
    → (j == id) ≡ false
    → has_no_dot j ≡ true
    → IsSame j (resolve_share_directory env t) w (migrate_item env machine faults item_id w).1
unfolding item_share resolve_share_directory source_directory target_directory temp_directory
migrate_item-IsSame env machine faults w item item_id id j t there named row other plain =
    let d : Directory = resolve_share_directory env t in
    let mine : t.id ≡ j = find_share-id w j t row in
    migrate_item-keeps env machine faults item_id w (IsSame j d w)
      (λ item' s job found owner.
        let theirs : s.id ≡ id =
          find_share-id w id s (ground (arith, there, named, found, owner)) in
        let differ : (j == s.id) ≡ false = rw theirs other in
        let differ' : (s.id == j) ≡ false = ground (arith, differ, eq_iff j s.id, eq_iff s.id j) in
        let not_from : same_directory d (source_directory env machine s) ≡ false =
          apart d (source_directory env machine s) (rw mine differ) in
        let not_to : same_directory d (target_directory env machine job s) ≡ false =
          apart d (target_directory env machine job s) (rw mine differ) in
        let not_temporary : same_directory d (temp_directory env machine job s) ≡ false =
          apart d (temp_directory env machine job s) (rw mine (not_temp j s.id job.id plain)) in
        record {
          clear = λ w1. remove_tree-IsSame j d w faults.clear _ w1 not_temporary;
          undo = λ w1. remove_tree-IsSame j d w faults.undo _ w1 not_to;
          clean = λ w1. remove_tree-IsSame j d w faults.clean _ w1 not_from;
          copy = λ w1.
              copy_tree-IsSame j d w faults.copy _ _ w1
                (same_directory_flip d (temp_directory env machine job s) not_temporary);
          rename = λ w1.
              rename_tree-IsSame j d w faults.rename _ _ w1 not_temporary
                (same_directory_flip d (target_directory env machine job s) not_to);
          make = make_directory-IsSame j d w _;
          write = λ w1. set_path-IsSame j d w faults.write_row s.id _ w1 differ';
        })
      (record { row = refl; held = λ _. refl })
