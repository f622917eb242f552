-- ===== src/Migration/Item/Frame.antt =====
-- What the migration of an item leaves as it is: the jobs, the items and the locks.
use i_transfer.Base.{◌≡◌, refl, String, Bool, true, false, arith}
use i_transfer.Env.{Env}
use i_transfer.Migration.{Machine, Faults}
use i_transfer.Migration.Disk.{
  Extent, whole, part, remove_tree, copy_tree, rename_tree, make_directory,
}
use i_transfer.Migration.Item.{migrate_item, set_path}
use i_transfer.Migration.Item.Keeps.{migrate_item-keeps}
use i_transfer.World.{World, Directory, update_share}
use i_transfer.Migration.Frame.{IsFramed, same_tables}

-- The tables of the jobs, and the locks, are those of before.
record IsUntouched (before w : World) : Type 0 where
  jobs : w.migration_jobs ≡ before.migration_jobs
  items : w.migration_items ≡ before.migration_items
  locks : w.locked_share_ids ≡ before.locked_share_ids
  faults : w.update_faults ≡ before.update_faults

module _ (env : Env) (machine : Machine) (faults : Faults) (before : World) where
  remove_tree-IsUntouched :
      (x : Extent) (d : Directory) (w : World)
      → IsUntouched before w
      → IsUntouched before (remove_tree x d w).1
  unfolding remove_tree
  remove_tree-IsUntouched whole d w same = record {
    jobs = same.jobs;
    items = same.items;
    locks = same.locks;
    faults = same.faults;
  }
  remove_tree-IsUntouched (part done) d w same = record {
    jobs = same.jobs;
    items = same.items;
    locks = same.locks;
    faults = same.faults;
  }

  copy_tree-IsUntouched :
      (x : Extent) (d d' : Directory) (w : World)
      → IsUntouched before w
      → IsUntouched before (copy_tree x d d' w).1
  unfolding copy_tree make_directory
  copy_tree-IsUntouched whole d d' w same = record {
    jobs = same.jobs;
    items = same.items;
    locks = same.locks;
    faults = same.faults;
  }
  copy_tree-IsUntouched (part done) d d' w same = record {
    jobs = same.jobs;
    items = same.items;
    locks = same.locks;
    faults = same.faults;
  }

  rename_tree-IsUntouched :
      (works : Bool) (d d' : Directory) (w : World)
      → IsUntouched before w
      → IsUntouched before (rename_tree works d d' w).1
  unfolding rename_tree
  rename_tree-IsUntouched true d d' w same = record {
    jobs = same.jobs;
    items = same.items;
    locks = same.locks;
    faults = same.faults;
  }
  rename_tree-IsUntouched false d d' w same = record {
    jobs = same.jobs;
    items = same.items;
    locks = same.locks;
    faults = same.faults;
  }

  set_path-IsUntouched :
      (works : Bool) (id root : String) (w : World)
      → IsUntouched before w
      → IsUntouched before (set_path works id root w).1
  unfolding set_path update_share
  set_path-IsUntouched false id root w same = record {
    jobs = same.jobs;
    items = same.items;
    locks = same.locks;
    faults = same.faults;
  }
  set_path-IsUntouched true id root w same = record {
    jobs = ground (arith, same.jobs);
    items = ground (arith, same.items);
    locks = ground (arith, same.locks);
    faults = ground (arith, same.faults);
  }

  make_directory-IsUntouched :
      (d : Directory) (w : World) → IsUntouched before w → IsUntouched before (make_directory d w)
  unfolding make_directory
  make_directory-IsUntouched d w same = record {
    jobs = same.jobs;
    items = same.items;
    locks = same.locks;
    faults = same.faults;
  }

pub migrate_item-IsFramed :
    (env : Env) (machine : Machine) (faults : Faults) (item_id : String) (w : World)
    → IsFramed w (migrate_item env machine faults item_id w).1
migrate_item-IsFramed env machine faults item_id w =
    let after : World = (migrate_item env machine faults item_id w).1 in
    let same : IsUntouched w after =
      migrate_item-keeps env machine faults item_id w (IsUntouched w)
        (λ item s job _ _. record {
          clear = remove_tree-IsUntouched env machine faults w _ _;
          undo = remove_tree-IsUntouched env machine faults w _ _;
          clean = remove_tree-IsUntouched env machine faults w _ _;
          copy = copy_tree-IsUntouched env machine faults w _ _ _;
          rename = rename_tree-IsUntouched env machine faults w _ _ _;
          make = make_directory-IsUntouched env machine faults w _;
          write = set_path-IsUntouched env machine faults w _ _ _;
        })
        (record { jobs = refl; items = refl; locks = refl; faults = refl }) in
    same_tables w after same.jobs same.items same.locks same.faults
