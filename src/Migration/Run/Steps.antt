-- ===== src/Migration/Run/Steps.antt =====
-- What one turn of the loop keeps, and how it leaves the job.
use mathlib.Core.Path.{subst}
use i_transfer.Base.{
  ◌≡◌, refl, ◌∙◌, String, Bool, true, false, none, some, List, [], ◌∷◌, ◌==◌, find?-update_where,
  update_where, suc, ◌+◌, find?-holds, is_some, All, arith, Option-cases, inl, inr,
}
use i_transfer.Env.{Env}
use i_transfer.Migration.{
  Machine, Faults, find_item, find_job, get_migration_job, is_active, update_item, update_job,
}
use i_transfer.Migration.Frame.{IsFramed, update_job-IsFramed, update_item-IsFramed}
use i_transfer.Migration.Item.{Moved, left_alone, moved, migrate_item}
use i_transfer.Migration.Item.Frame.{migrate_item-IsFramed}
use i_transfer.Migration.Run.{
  Next, go_on, stop, fail_item, mark_item_skipped, or_fail, try_item, finish_item,
}
use i_transfer.World.{
  World, Exception, Outcome, ok, throws, Ends, Ends-then, Ends-need, Ends-is, Ends-of, Ends-weaken,
  StorageMigrationJob, StorageMigrationJobItem, not_found,
}
use i_transfer.World.Migrations.{running, completed, cleanup_failed}

-- The job is at its end.
pub record HasEnded (job_id : String) (w : World) : Type 0 where
  pub job : StorageMigrationJob
  pub there : find_job w job_id ≡ some job
  pub not_active : is_active job.status ≡ false
  pub no_share : job.current_share_id ≡ none

-- The rows of the job and of its items are there, and these shares are locked.
pub record IsReady (job_id : String) (items : List StorageMigrationJobItem) (locks : List String)
    (w : World) : Type 0 where
  pub has_job : is_some (find_job w job_id) ≡ true
  pub has_items : All (λ i. is_some (find_item w i.id) ≡ true) items
  pub locked : w.locked_share_ids ≡ locks
  pub faultless : w.update_faults ≡ []

pub All-map :
    {P Q : StorageMigrationJobItem → Type 0} (items : List StorageMigrationJobItem)
    → ((i : StorageMigrationJobItem) → P i → Q i)
    → All P items
    → All Q items
All-map [] f all = tt
All-map (i ∷ items) f (here, all) = (f i here, All-map items f all)

abbrev pub Never : World → Type 0
Never _ = ⊥

module _ (job_id : String) (items : List StorageMigrationJobItem) (locks : List String) where
  pub IsReady-framed :
      (w w' : World) → IsFramed w w' → IsReady job_id items locks w → IsReady job_id items locks w'
  IsReady-framed w w' same ready = record {
    has_job = same.has_job job_id ∙ ready.has_job;
    has_items = All-map items (λ i here. same.has_item i.id ∙ here) ready.has_items;
    locked = same.locked ∙ ready.locked;
    faultless = same.faultless ready.faultless;
  }

  -- The job's row is written, and there.
  pub update_job-Ends :
      (f : StorageMigrationJob → StorageMigrationJob) (w : World)
      → ((j : StorageMigrationJob) → (f j).id ≡ j.id)
      → IsReady job_id items locks w
      → Ends
          (λ _ w'.
            IsReady job_id items locks w'
            × (j : StorageMigrationJob) × (find_job w' job_id ≡ some (f j)))
          Never
          (update_job job_id f w)
  unfolding update_job find_job
  update_job-Ends f w keeps ready = elim (Option-cases (find_job w job_id)) [
    | inl missing ↦ absurd (ground (arith, missing, ready.has_job))
    | inr (j, there) ↦
        let after : World = record w {
          migration_jobs = update_where (λ j. j.id == job_id) f w.migration_jobs;
        } in
        let done : update_job job_id f w ≡ (ok tt, after) =
          ground (arith, there, ready.faultless) in
        let still : IsReady job_id items locks after =
          IsReady-framed w after
            (subst (λ r. IsFramed w r.1) done (update_job-IsFramed job_id f w keeps)) ready in
        let written : find_job after job_id ≡ some (f j) = ground (
          arith,
          find?-update_where (λ j. j.id == job_id) (λ j. j.id == job_id) f w.migration_jobs
              (λ j. rw (keeps j) refl),
          there,
          find?-holds (λ j. j.id == job_id) w.migration_jobs there,
        ) in
        Ends-is _ Never (update_job job_id f w) tt after done (still, j, written)
  ]

  update_item-Ends :
      (id : String) (f : StorageMigrationJobItem → StorageMigrationJobItem) (w : World)
      → ((i : StorageMigrationJobItem) → (f i).id ≡ i.id)
      → is_some (find_item w id) ≡ true
      → IsReady job_id items locks w
      → Ends (λ _ w'. IsReady job_id items locks w') Never (update_item id f w)
  unfolding update_item find_item
  update_item-Ends id f w keeps here ready = elim (Option-cases (find_item w id)) [
    | inl missing ↦ absurd (ground (arith, missing, here))
    | inr (i, there) ↦
        let after : World = record w {
          migration_items = update_where (λ i. i.id == id) f w.migration_items;
        } in
        let done : update_item id f w ≡ (ok tt, after) = ground (arith, there, ready.faultless) in
        Ends-is _ Never (update_item id f w) tt after done (
          IsReady-framed w after
            (subst (λ r. IsFramed w r.1) done (update_item-IsFramed id f w keeps)) ready)
  ]

-- Where a turn leaves the job: at its end, if the loop has returned.
abbrev pub After : String → Next → World → Type 0
After job_id (go_on warning) w = Unit {0}
After job_id stop w = HasEnded job_id w

pub ended :
    (job_id : String) (w : World) (j : StorageMigrationJob)
    → find_job w job_id ≡ some j
    → is_active j.status ≡ false
    → j.current_share_id ≡ none
    → HasEnded job_id w
ended job_id w j there over clear = record {
  job = j;
  there = there;
  not_active = over;
  no_share = clear;
}

module _ (env : Env) (machine : Machine) (faults : String → Faults) (cancels : String → Bool)
    (job_id : String) (items : List StorageMigrationJobItem) (locks : List String)
    (item : StorageMigrationJobItem) where
  abbrev pub Good : Next → World → Type 0
  Good next w = IsReady job_id items locks w × After job_id next w

  pub mark_item_skipped-Ends :
      (message : String) (w : World)
      → is_some (find_item w item.id) ≡ true
      → IsReady job_id items locks w
      → Ends
          (λ _ w'. IsReady job_id items locks w')
          Never
          (mark_item_skipped job_id item.id message w)
  unfolding mark_item_skipped
  mark_item_skipped-Ends message w here ready =
      Ends-then _ Never (λ _ w'. IsReady job_id items locks w') (update_item item.id _ w) _
        (update_item-Ends job_id items locks item.id _ w (λ i. refl) here ready)
        λ _ w1 ready1.
          let count : StorageMigrationJob → StorageMigrationJob =
            λ j. record j { skipped_shares = suc j.skipped_shares } in
          Ends-weaken _ (λ _ w'. IsReady job_id items locks w') Never Never
            (update_job job_id count w1)
            (update_job-Ends job_id items locks count w1 (λ j. refl) ready1)
            (λ _ w' (still, _, _). still) (λ _ x. x)

  fail_item-Ends :
      (e : Exception) (w : World)
      → is_some (find_item w item.id) ≡ true
      → IsReady job_id items locks w
      → Ends Good Never (fail_item env machine faults cancels job_id item e w)
  unfolding fail_item
  fail_item-Ends e w here ready =
      Ends-then Good Never (λ _ w'. IsReady job_id items locks w') (update_item item.id _ w) _
        (update_item-Ends job_id items locks item.id _ w (λ i. refl) here ready)
        λ _ w1 ready1.
          Ends-then Good Never _ (update_job job_id _ w1) _
            (update_job-Ends job_id items locks _ w1 (λ j. refl) ready1)
            λ _ w2 (ready2, j, there). (ready2, ended job_id w2 _ there refl refl)

  -- Going on, with the rows there.
  abbrev Going : Next → World → Type 0
  Going (go_on warning) w = IsReady job_id items locks w
  Going stop w = ⊥

  abbrev Ready : World → Type 0
  Ready w = IsReady job_id items locks w

  finish_item-Ends :
      (m : Moved) (w : World)
      → is_some (find_item w item.id) ≡ true
      → Ready w
      → Ends Going Ready (finish_item env machine faults cancels job_id item m w)
  unfolding finish_item get_migration_job
  finish_item-Ends (left_alone message) w here ready =
      Ends-then Going Ready (λ _. Ready) (mark_item_skipped job_id item.id message w) _
        (Ends-weaken _ (λ _. Ready) Never Ready (mark_item_skipped job_id item.id message w)
          (mark_item_skipped-Ends message w here ready) (λ _ _ x. x) (λ _ x. absurd x))
        (λ _ _ still. still)
  finish_item-Ends (moved bytes cleanup_error) w here ready =
      let f : StorageMigrationJobItem → StorageMigrationJobItem = λ i. record i {
        status = elim cleanup_error [ none ↦ completed | some _ ↦ cleanup_failed ];
        error_message = elim cleanup_error [ none ↦ i.error_message | some e ↦ some e ];
      } in
      let g : StorageMigrationJob → StorageMigrationJob =
        λ j. record j { moved_shares = suc j.moved_shares; moved_bytes = j.moved_bytes + bytes } in
      Ends-then Going Ready (λ _. Ready) (update_item item.id f w) _
        (Ends-of Ready (update_item item.id f w) (
          IsReady-framed job_id items locks w _ (update_item-IsFramed item.id f w (λ i. refl))
            ready))
        λ _ w1 ready1.
          Ends-need Going Ready (not_found "Storage migration job not found") (find_job w1 job_id)
            w1 _ ready1
            λ j there.
              Ends-then Going Ready (λ _. Ready) (update_job job_id g w1) _
                (Ends-of Ready (update_job job_id g w1) (
                  IsReady-framed job_id items locks w1 _
                    (update_job-IsFramed job_id g w1 (λ j. refl)) ready1))
                (λ _ _ still. still)

  pub try_item-Ends :
      (share_id : String) (w : World)
      → ((w' : World) → Ready w' → is_some (find_item w' item.id) ≡ true)
      → Ready w
      → Ends Going Ready (try_item env machine faults cancels job_id item share_id w)
  unfolding try_item
  try_item-Ends share_id w here ready =
      let f : StorageMigrationJobItem → StorageMigrationJobItem =
        λ i. record i { status = running } in
      let g : StorageMigrationJob → StorageMigrationJob =
        λ j. record j { current_share_id = some share_id } in
      Ends-then Going Ready (λ _. Ready) (update_item item.id f w) _
        (Ends-of Ready (update_item item.id f w) (
          IsReady-framed job_id items locks w _ (update_item-IsFramed item.id f w (λ i. refl))
            ready))
        λ _ w1 ready1.
          Ends-then Going Ready (λ _. Ready) (update_job job_id g w1) _
            (Ends-of Ready (update_job job_id g w1) (
              IsReady-framed job_id items locks w1 _ (update_job-IsFramed job_id g w1 (λ j. refl))
                ready1))
            λ _ w2 ready2.
              Ends-then Going Ready (λ _. Ready)
                (migrate_item env machine (faults item.id) item.id w2) _
                (Ends-of Ready (migrate_item env machine (faults item.id) item.id w2) (
                  IsReady-framed job_id items locks w2 _
                    (migrate_item-IsFramed env machine (faults item.id) item.id w2) ready2))
                λ m w3 ready3. finish_item-Ends m w3 (here w3 ready3) ready3

  pub or_fail-Ends :
      (r : Outcome Next × World)
      → ((w' : World) → Ready w' → is_some (find_item w' item.id) ≡ true)
      → Ends Going Ready r
      → Ends Good Never (or_fail env machine faults cancels job_id item r)
  unfolding or_fail
  or_fail-Ends (ok (go_on warning), w) here going = (going, tt)
  or_fail-Ends (ok stop, w) here going = absurd going
  or_fail-Ends (throws e, w) here ready = fail_item-Ends e w (here w ready) ready
