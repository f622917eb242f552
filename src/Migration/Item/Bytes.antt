-- ===== src/Migration/Item/Bytes.antt =====
-- What the migration of a share does to the files of that share.
use mathlib.Core.Path.{subst}
use i_transfer.Base.{
  ◌≡◌, refl, sym, ap, ◌∙◌, Bool, true, false, not, none, some, List, String, arith, Bool-cases,
  Option-cases, inl, inr, ◌⊎◌, ◌==◌, eq_refl, ltb, length, update_where,
}
use i_transfer.Env.{Env}
use i_transfer.File.Upload.{bytes_at}
use i_transfer.Migration.{Machine, Faults, are_paths_equal, find_item, find_job}
use i_transfer.Migration.Disk.{
  Extent, whole, part, exists, make_directory, remove_tree, copy_tree, rename_tree,
}
use i_transfer.Migration.Disk.Reads.{
  at-remove_other, at-remove_whole, at-remove_self, at-copy, at-copy_other, at-rename,
  at-rename_other, exists-at, same_directory_flip,
}
use i_transfer.Migration.Item.{
  Moved, assert_expected_files_exist, set_path, source_root, source_directory, target_directory,
  temp_directory, move_nothing, move_all, move_share, migrate_item, or_undo, reported, refusal,
  item_share,
}
use i_transfer.Storage.{resolve_share_directory, same_directory}
use i_transfer.World.{
  World, Share, File, Directory, Entry, Ends, Ends-guard, Ends-if, Ends-weaken, Ends-then,
  Ends-undone, Ends-keeping, ok, throws, Outcome, find_share, file_system_error,
  StorageMigrationJob, StorageMigrationJobItem, update_share-some, find?-update_share,
  find_share-id, Ends-state,
}
use i_transfer.Migration.Item.Paths.{
  IsIntact, IsResolver, root_of, share_bytes, temp_name, paths_differ, assert_expected-state,
  share_bytes-some, provider_cases,
}

module _ (env : Env) (machine : Machine) (job : StorageMigrationJob) (s : Share) (before : World)
    (resolver : IsResolver machine) (resolved : machine.resolve (root_of env s) ≡ root_of env s)
    (apart : are_paths_equal machine (source_root env machine s) (machine.resolve job.target_path)
      ≡ false) where
  from : Directory
  from = source_directory env machine s

  to : Directory
  to = target_directory env machine job s

  temp : Directory
  temp = temp_directory env machine job s

  from-to : same_directory from to ≡ false
  unfolding from to source_directory target_directory source_root are_paths_equal
  from-to = ground (
    arith,
    paths_differ machine (source_root env machine s) (machine.resolve job.target_path) apart,
    resolver.again job.target_path,
  )

  from-temp : same_directory from temp ≡ false
  unfolding from temp temp_directory source_directory
  from-temp = same_directory_flip temp from (ground (arith, temp_name s.id job.id))

  temp-to : same_directory temp to ≡ false
  unfolding temp to temp_directory target_directory
  temp-to = ground (arith, temp_name s.id job.id)

  -- A directory with the files that the share had.
  abbrev Held : World → Directory → Type 0
  Held w d = (e : Entry) → bytes_at w d e ≡ bytes_at before from e

  abbrev IsEmpty : World → Directory → Type 0
  IsEmpty w d = (e : Entry) → bytes_at w d e ≡ none

  abbrev IsAtSource : World → Type 0
  IsAtSource w = (find_share w s.id ≡ some s) × Held w from

  abbrev IsAtTarget : World → Type 0
  IsAtTarget w =
      (t : Share) × (find_share w s.id ≡ some t) × (resolve_share_directory env t ≡ to) × Held w to

  remove-IsAtSource :
      (x : Extent) (d : Directory) (w : World)
      → same_directory from d ≡ false
      → IsAtSource w
      → IsAtSource (remove_tree x d w).1
  unfolding remove_tree bytes_at find_share
  remove-IsAtSource whole d w other (row, held) =
      (row, λ e. at-remove_whole d w.disk from e other ∙ held e)
  remove-IsAtSource (part done) d w other (row, held) =
      (row, λ e. at-remove_other d done w.disk from e other ∙ held e)

  remove-IsAtTarget : (x : Extent) (w : World) → IsAtTarget w → IsAtTarget (remove_tree x from w).1
  unfolding remove_tree bytes_at find_share
  remove-IsAtTarget whole w (t, row, there, held) = (
    t,
    row,
    there,
    λ e. at-remove_whole from w.disk to e (same_directory_flip from to from-to) ∙ held e,
  )
  remove-IsAtTarget (part done) w (t, row, there, held) = (
    t,
    row,
    there,
    λ e. at-remove_other from done w.disk to e (same_directory_flip from to from-to) ∙ held e,
  )

  clear-Ends :
      (x : Extent) (w : World)
      → IsAtSource w
      → IsEmpty w to
      → Ends
          (λ _ w'. IsAtSource w' × IsEmpty w' to × IsEmpty w' temp)
          IsAtSource
          (remove_tree x temp w)
  unfolding remove_tree bytes_at
  clear-Ends whole w source empty = (
    remove-IsAtSource whole temp w from-temp source,
    λ e. at-remove_whole temp w.disk to e (same_directory_flip temp to temp-to) ∙ empty e,
    λ e. at-remove_self temp w.disk e,
  )
  clear-Ends (part done) w source empty = remove-IsAtSource (part done) temp w from-temp source

  copy-Ends :
      (x : Extent) (w : World)
      → IsAtSource w
      → IsEmpty w to
      → IsEmpty w temp
      → Ends
          (λ _ w'. IsAtSource w' × IsEmpty w' to × Held w' temp)
          IsAtSource
          (copy_tree x from temp w)
  unfolding copy_tree make_directory bytes_at find_share
  copy-Ends whole w (row, held) empty clear = (
    (
      row,
      λ e. at-copy_other temp _ w.disk from e (same_directory_flip from temp from-temp) ∙ held e,
    ),
    λ e. at-copy_other temp _ w.disk to e temp-to ∙ empty e,
    λ e. at-copy from temp w.disk e (clear e) ∙ held e,
  )
  copy-Ends (part done) w (row, held) empty clear = (
    row,
    λ e. at-copy_other temp _ w.disk from e (same_directory_flip from temp from-temp) ∙ held e,
  )

  rename-Ends :
      (works : Bool) (w : World)
      → IsAtSource w
      → IsEmpty w to
      → Held w temp
      → Ends (λ _ w'. IsAtSource w' × Held w' to) IsAtSource (rename_tree works temp to w)
  unfolding rename_tree bytes_at find_share
  rename-Ends true w (row, held) empty copied = (
    (
      row,
      λ e.
          at-rename_other temp to w.disk from e from-temp (same_directory_flip from to from-to)
          ∙ held e,
    ),
    λ e. at-rename temp to w.disk e temp-to (empty e) ∙ copied e,
  )
  rename-Ends false w source empty copied = source

  -- The share's row with the new root.
  switched : Share
  switched = record s { local_storage_path = some (machine.resolve job.target_path) }

  switched-directory : resolve_share_directory env switched ≡ to
  unfolding switched to resolve_share_directory target_directory
  switched-directory = ground (arith, resolver.not_empty job.target_path)

  set_path-Ends :
      (works : Bool) (w : World)
      → IsAtSource w
      → Held w to
      → Ends
          (λ _ w'. IsAtTarget w')
          (λ w'. IsAtSource w' × Held w' to)
          (set_path works s.id (machine.resolve job.target_path) w)
  unfolding set_path bytes_at find_share switched
  set_path-Ends false w source copied = (source, copied)
  set_path-Ends true w (row, held) copied =
      let set : Share → Share =
        λ t. record t { local_storage_path = some (machine.resolve job.target_path) } in
      let after : World = record w { shares = update_where (λ t. t.id == s.id) set w.shares } in
      let there : find_share after s.id ≡ some switched =
        ground (arith, find?-update_share s.id s.id set w.shares (λ t. refl), eq_refl s.id, row) in
      rw (update_share-some w s.id set row) (switched, there, switched-directory, copied)

  or_undo-Ends :
      (faults : Faults) (r : Outcome (Unit {0}) × World)
      → Ends (λ _ w'. IsAtTarget w') (λ w'. IsAtSource w' × Held w' to) r
      → Ends (λ _ w'. IsAtTarget w') IsAtSource (or_undo env machine faults job s r)
  unfolding or_undo to
  or_undo-Ends faults (ok _, w) target = target
  or_undo-Ends faults (throws e, w) (source, copied) =
      Ends-undone _ _ (remove_tree faults.undo to w) e
        (remove-IsAtSource faults.undo to w from-to source)

  reported-Ends :
      (faults : Faults) (r : Outcome (Unit {0}) × World)
      → IsAtTarget r.1
      → Ends (λ _ w'. IsAtTarget w') IsAtSource (reported env machine faults r)
  unfolding reported
  reported-Ends faults (ok _, w) target = target
  reported-Ends faults (throws e, w) target = target

  -- The share lies where it lay, or at the new place, with the same files.
  abbrev IsSafe : World → Type 0
  IsSafe w = IsAtSource w ⊎ IsAtTarget w

  move_all-Ends :
      (faults : Faults) (files : List File) (w : World)
      → IsAtSource w
      → IsEmpty w to
      → IsEmpty w temp
      → Ends (λ _ w'. IsAtTarget w') IsAtSource (move_all env machine faults job s files w)
  unfolding move_all from to temp
  move_all-Ends faults files w source empty clear =
      let Good : Moved → World → Type 0 = λ _ w'. IsAtTarget w' in
      Ends-keeping Good IsAtSource (assert_expected_files_exist from files w) _ w
        (assert_expected-state from files w) source
        (λ _. Ends-guard Good IsAtSource (not faults.make) file_system_error w _ source λ _.
          Ends-then Good IsAtSource _ (copy_tree faults.copy from temp w) _
            (copy-Ends faults.copy w source empty clear)
            λ _ w1 (source1, empty1, copied1).
              Ends-keeping Good IsAtSource (assert_expected_files_exist temp files w1) _ w1
                (assert_expected-state temp files w1) source1
                (λ _.
                  Ends-then Good IsAtSource _ (rename_tree faults.rename temp to w1) _
                    (rename-Ends faults.rename w1 source1 empty1 copied1)
                    λ _ w2 (source2, copied2).
                      Ends-then Good IsAtSource _
                        (or_undo env machine faults job s
                          (set_path faults.write_row s.id (machine.resolve job.target_path) w2))
                        _
                        (or_undo-Ends faults
                          (set_path faults.write_row s.id (machine.resolve job.target_path) w2)
                          (set_path-Ends faults.write_row w2 source2 copied2))
                        λ _ w3 target.
                          Ends-then Good IsAtSource (λ _ w'. IsAtTarget w')
                            (reported env machine faults (remove_tree faults.clean from w3)) _
                            (reported-Ends faults (remove_tree faults.clean from w3)
                              (remove-IsAtTarget faults.clean w3 target))
                            (λ _ _ there. there)))

  move_nothing-Ends :
      (faults : Faults) (files : List File) (w : World)
      → IsAtSource w
      → IsEmpty w to
      → exists w from ≡ false
      → Ends (λ _ w'. IsAtTarget w') IsAtSource (move_nothing env machine faults job s files w)
  unfolding move_nothing make_directory from to bytes_at find_share
  move_nothing-Ends faults files w (row, held) empty missing =
      let Good : Moved → World → Type 0 = λ _ w'. IsAtTarget w' in
      let source : IsAtSource w = (row, held) in
      let copied : Held w to = λ e. empty e ∙ sym (exists-at w from e missing) ∙ held e in
      Ends-guard Good IsAtSource (ltb 0 (length files)) (refusal s ": source directory is missing")
        w _ source
        λ _. Ends-guard Good IsAtSource (not faults.make) file_system_error w _ source λ _.
          Ends-then Good IsAtSource (λ _ w'. IsAtTarget w')
            (set_path faults.write_row s.id (machine.resolve job.target_path) (make_directory to w))
            _
            (Ends-weaken (λ _ w'. IsAtTarget w') (λ _ w'. IsAtTarget w')
              (λ w'. IsAtSource w' × Held w' to) IsAtSource
              (set_path faults.write_row s.id (machine.resolve job.target_path)
                (make_directory to w))
              (set_path-Ends faults.write_row (make_directory to w) source copied)
              (λ _ _ target. target) (λ _ (left, _). left))
            (λ _ _ target. target)

  move_share-Ends :
      (faults : Faults) (w : World)
      → IsAtSource w
      → Ends (λ _ w'. IsSafe w') IsSafe (move_share env machine faults job s w)
  unfolding move_share from to temp
  move_share-Ends faults w source =
      let Good : Moved → World → Type 0 = λ _ w'. IsSafe w' in
      Ends-if Good IsSafe
        (are_paths_equal machine (source_root env machine s) (machine.resolve job.target_path)) _ _
        w (λ _. inl source)
        (λ _.
          Ends-guard Good IsSafe (exists w to) (refusal s ": target directory already exists") w _
            (inl source)
            λ free.
              Ends-weaken (λ _ w'. IsAtTarget w') Good IsAtSource IsSafe _
                (Ends-then (λ _ w'. IsAtTarget w') IsAtSource _ (remove_tree faults.clear temp w) _
                  (clear-Ends faults.clear w source (λ e. exists-at w to e free))
                  λ _ w1 (source1, empty, clear).
                    Ends-if (λ _ w'. IsAtTarget w') IsAtSource (exists w1 from) _ _ w1
                      (λ _. move_all-Ends faults _ w1 source1 empty clear)
                      (λ missing. move_nothing-Ends faults _ w1 source1 empty missing))
                (λ _ _ target. inr target) (λ _ left. inl left))

move_share-IsIntact :
    (env : Env) (machine : Machine) (faults : Faults) (job : StorageMigrationJob) (s : Share)
    (w : World)
    → IsResolver machine
    → find_share w s.id ≡ some s
    → machine.resolve (root_of env s) ≡ root_of env s
    → IsIntact env machine s.id w (move_share env machine faults job s w).1
unfolding move_share resolve_share_directory source_directory source_root from to target_directory
move_share-IsIntact env machine faults job s w resolver row resolved =
    let here : resolve_share_directory env s ≡ source_directory env machine s =
      ground (arith, resolved) in
    let origin : (e : Entry)
        → share_bytes env w s.id e ≡ bytes_at w (source_directory env machine s) e =
      λ e. share_bytes-some env w s.id s e row ∙ ap (λ d. bytes_at w d e) here in
    let after : World = (move_share env machine faults job s w).1 in
    elim (Bool-cases
      (are_paths_equal machine (source_root env machine s) (machine.resolve job.target_path))) [
        | inl same ↦
            let stays : IsIntact env machine s.id w w = record {
              share = s;
              row = row;
              resolved = resolved;
              held = λ _. refl;
            } in
            rw same stays
        | inr apart ↦
            elim (Ends-state (IsSafe env machine job s w resolver resolved apart)
              (move_share env machine faults job s w)
              (move_share-Ends env machine job s w resolver resolved apart faults w
                (row, λ _. refl))) [
                  | inl (row', held) ↦ record {
                    share = s;
                    row = row';
                    resolved = resolved;
                    held = λ e.
                        share_bytes-some env after s.id s e row'
                        ∙ ap (λ d. bytes_at after d e) here
                        ∙ held e
                        ∙ sym (origin e);
                  }
                  | inr (t, row', there, held) ↦
                      let root : root_of env t ≡ machine.resolve job.target_path =
                        ap (λ d. d.root) there in
                      record {
                        share = t;
                        row = row';
                        resolved =
                            ap machine.resolve root ∙ resolver.again job.target_path ∙ sym root;
                        held = λ e.
                            share_bytes-some env after s.id t e row'
                            ∙ ap (λ d. bytes_at after d e) there
                            ∙ held e
                            ∙ sym (origin e);
                      }
                ]
      ]

-- The migration of an item keeps every file of the item's share, whatever call of the file system or
-- of the database fails: wherever the share's row says that its files lie afterwards, each one is
-- there with the bytes that it had. The share's own root is taken to be a resolved path.
pub migrate_item-IsIntact :
    (env : Env) (machine : Machine) (faults : Faults) (w : World) (item : StorageMigrationJobItem)
    (item_id id : String) (s : Share)
    → IsResolver machine
    → find_item w item_id ≡ some item
    → item.share_id ≡ some id
    → find_share w id ≡ some s
    → machine.resolve (root_of env s) ≡ root_of env s
    → IsIntact env machine id w (migrate_item env machine faults item_id w).1
unfolding migrate_item item_share
migrate_item-IsIntact env machine faults w item item_id id s resolver there named row resolved =
    let same : s.id ≡ id = find_share-id w id s row in
    let after : World = (migrate_item env machine faults item_id w).1 in
    let stays : IsIntact env machine id w w = record {
      share = s;
      row = row;
      resolved = resolved;
      held = λ _. refl;
    } in
    let unmoved : after ≡ w → IsIntact env machine id w after =
      λ e. subst (IsIntact env machine id w) (sym e) stays in
    elim (provider_cases s.storage_provider) [
      | inr remote ↦ unmoved (ground (arith, there, named, row, remote))
      | inl is_local ↦ elim (Option-cases (find_job w item.job_id)) [
        | inl gone ↦ unmoved (ground (arith, there, named, row, is_local, gone))
        | inr (job, found) ↦
            let runs : after ≡ (move_share env machine faults job s w).1 =
              ground (arith, there, named, row, is_local, found) in
            subst (IsIntact env machine id w) (sym runs) (
              subst (λ k. IsIntact env machine k w (move_share env machine faults job s w).1) same
                (move_share-IsIntact env machine faults job s w resolver
                  (ap (find_share w) same ∙ row) resolved))
      ]
    ]
