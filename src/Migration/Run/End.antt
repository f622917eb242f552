-- ===== src/Migration/Run/End.antt =====
-- How a run of a job ends.
use i_transfer.Base.{
  ◌≡◌, refl, ap, ◌∙◌, String, Bool, true, false, Option, some, List, [], ◌∷◌, ◌==◌, find?,
  delete_where, select, is_some, All, arith, eq_refl, Bool-cases, Option-cases, inl, inr,
}
use i_transfer.Env.{Env}
use i_transfer.Migration.{
  Machine, Faults, cancel_migration, find_item, find_job, get_migration_job, is_active, items_of,
  lock, unlock, update_job,
}
use i_transfer.Migration.Frame.{IsFramed, framed, update_job-IsFramed}
use i_transfer.Migration.Run.Steps.{
  HasEnded, IsReady, All-map, Never, IsReady-framed, update_job-Ends, After, ended, Good,
  mark_item_skipped-Ends, try_item-Ends, or_fail-Ends,
}
use i_transfer.Migration.Run.{
  Next, go_on, stop, complete_job, is_cancel_requested, mark_item_skipped, or_fail, run_item,
  run_items, run_migration, try_item, released, cancelled_before, with_warning, join_lines,
  all_warnings, completed_with,
}
use i_transfer.World.{
  World, App, pure, Exception, Outcome, ok, throws, Ends, Ends-then, Ends-need, Ends-there,
  Ends-or_throw, Ends-if, Ends-match, Ends-state, Ends-weaken, Ends-keep, StorageMigrationJob,
  StorageMigrationJobItem, null_dereference, not_found,
}
use i_transfer.World.Migrations.{
  Status, pending, running, cancel_requested, cancelled, completed, completed_with_warnings, failed,
  skipped, cleanup_failed,
}

lock_alone : (id : String) → delete_where (λ x. x == id) (id ∷ []) ≡ []
unfolding delete_where
lock_alone id = ground (arith, eq_refl id)

module _ (env : Env) (machine : Machine) (faults : String → Faults) (cancels : String → Bool)
    (job_id : String) where
  -- What a request to cancel does to a job of each status.
  abbrev by_status : Status → App (Unit {0})
  by_status pending =
      update_job job_id (λ j. record j { status = cancelled; completed_at = some env.now })
  by_status running = update_job job_id (λ j. record j { status = cancel_requested })
  by_status _ = λ w. (ok tt, w)

  by_status-IsFramed : (status : Status) (w : World) → IsFramed w (by_status status w).1
  by_status-IsFramed pending w = update_job-IsFramed job_id _ w (λ j. refl)
  by_status-IsFramed running w = update_job-IsFramed job_id _ w (λ j. refl)
  by_status-IsFramed cancel_requested w = framed w
  by_status-IsFramed cancelled w = framed w
  by_status-IsFramed completed w = framed w
  by_status-IsFramed completed_with_warnings w = framed w
  by_status-IsFramed failed w = framed w
  by_status-IsFramed skipped w = framed w
  by_status-IsFramed cleanup_failed w = framed w

  cancel_migration-IsFramed : (w : World) → IsFramed w (cancel_migration env job_id w).1
  unfolding cancel_migration get_migration_job
  cancel_migration-IsFramed w =
      let P : World → Type 0 = IsFramed w in
      let missing : Exception = not_found "Storage migration job not found" in
      Ends-state P (cancel_migration env job_id w) (
        Ends-need (λ _. P) P missing (find_job w job_id) w _ (framed w)
          λ job _.
            Ends-keep P (by_status job.status w) _ (by_status-IsFramed job.status w) λ _ w' kept.
              Ends-or_throw (λ _. P) P missing (find_job w' job_id) w' kept (λ _ _. kept))

  cancelled_before-IsFramed :
      (item : StorageMigrationJobItem) (w : World)
      → IsFramed w (cancelled_before env machine faults cancels job_id item w)
  unfolding cancelled_before
  cancelled_before-IsFramed item w = elim (Bool-cases (cancels item.id)) [
    | inl comes ↦ rw comes (cancel_migration-IsFramed w)
    | inr quiet ↦ rw quiet (framed w)
  ]

  After-unlock :
      (next : Next) (w : World) (id : String)
      → After job_id next w
      → After job_id next (unlock id w)
  unfolding unlock find_job
  After-unlock (go_on warning) w id after = tt
  After-unlock stop w id after =
      ended job_id (unlock id w) after.job after.there after.not_active after.no_share

  released-Ends :
      (items : List StorageMigrationJobItem) (item : StorageMigrationJobItem) (id : String)
      (r : Outcome Next × World)
      → Ends (Good env machine faults cancels job_id items (id ∷ []) item) Never r
      → Ends
          (Good env machine faults cancels job_id items [] item)
          Never
          (released env machine faults cancels job_id id r)
  unfolding released unlock find_job find_item
  released-Ends items item id (ok next, w) (ready, after) =
      let free : IsReady job_id items [] (unlock id w) = record {
        has_job = ready.has_job;
        has_items = ready.has_items;
        locked = ap (delete_where (λ x. x == id)) ready.locked ∙ lock_alone id;
        faultless = ready.faultless;
      } in
      (free, After-unlock next w id after)
  released-Ends items item id (throws e, w) never = elim never [ ]

  run_item-Ends :
      (items : List StorageMigrationJobItem) (item : StorageMigrationJobItem) (w : World)
      → ((w' : World) (locks : List String)
          → IsReady job_id items locks w'
          → is_some (find_item w' item.id) ≡ true)
      → IsReady job_id items [] w
      → Ends
          (Good env machine faults cancels job_id items [] item)
          Never
          (run_item env machine faults cancels job_id item w)
  unfolding run_item lock find_job find_item delete_where
  run_item-Ends items item w here ready =
      let R : Next → World → Type 0 = Good env machine faults cancels job_id items [] item in
      elim (Option-cases (find_job w job_id)) [
        | inl missing ↦ absurd (ground (arith, missing, ready.has_job))
        | inr (job, there) ↦ Ends-there R Never null_dereference (find_job w job_id) w _ job there (
            Ends-if R Never (is_cancel_requested job.status) _ _ w
              (λ _.
                Ends-then R Never _ (update_job job_id _ w) _
                  (update_job-Ends job_id items [] _ w (λ j. refl) ready)
                  λ _ w1 (ready1, j, written). (ready1, ended job_id w1 _ written refl refl))
              (λ _.
                Ends-match R Never item.share_id _ _ w
                  (λ _.
                    Ends-then R Never _
                      (mark_item_skipped job_id item.id "Share no longer exists." w) _
                      (mark_item_skipped-Ends env machine faults cancels job_id items [] item
                        "Share no longer exists." w (here w [] ready) ready)
                      (λ _ _ still. (still, tt)))
                  (λ id _.
                    let held : IsReady job_id items (id ∷ []) (lock id w) = record {
                      has_job = ready.has_job;
                      has_items = ready.has_items;
                      locked = ap (λ l. id ∷ delete_where (λ x. x == id) l) ready.locked;
                      faultless = ready.faultless;
                    } in
                    released-Ends items item id
                      (or_fail env machine faults cancels job_id item
                        (try_item env machine faults cancels job_id item id (lock id w)))
                      (or_fail-Ends env machine faults cancels job_id items (id ∷ []) item _
                        (λ w' still. here w' (id ∷ []) still)
                        (try_item-Ends env machine faults cancels job_id items (id ∷ []) item id
                          (lock id w) (λ w' still. here w' (id ∷ []) still) held)))))
      ]

  completed_with-over :
      (warnings : List String) (j : StorageMigrationJob)
      → is_active (completed_with env machine faults cancels job_id warnings j).status ≡ false
  unfolding completed_with
  completed_with-over warnings j = elim (Option-cases (join_lines warnings)) [
    | inl clean ↦ ground (arith, clean)
    | inr (text, some_text) ↦ ground (arith, some_text)
  ]

  -- What is left at the end.
  abbrev IsOver : World → Type 0
  IsOver w = HasEnded job_id w × (w.locked_share_ids ≡ [])

  complete_job-Ends :
      (items : List StorageMigrationJobItem) (warnings : List String) (w : World)
      → IsReady job_id items [] w
      → Ends (λ _. IsOver) Never (complete_job env machine faults cancels job_id warnings w)
  unfolding complete_job completed_with
  complete_job-Ends items warnings w ready =
      let all : List String = all_warnings env machine faults cancels job_id warnings w in
      let f : StorageMigrationJob → StorageMigrationJob =
        completed_with env machine faults cancels job_id all in
      Ends-weaken _ (λ _. IsOver) Never Never (update_job job_id f w)
        (update_job-Ends job_id items [] f w (λ j. refl) ready)
        (λ _ w' (still, j, written).
          (ended job_id w' (f j) written (completed_with-over all j) refl, still.locked))
        (λ _ x. x)

  next-Ends :
      (items : List StorageMigrationJobItem) (item : StorageMigrationJobItem)
      (warnings : List String)
      → ((warning : Option String) (w : World)
          → IsReady job_id items [] w
          → Ends
              (λ _. IsOver)
              Never
              (run_items env machine faults cancels job_id items (with_warning warning warnings) w))
      → (next : Next) (w : World)
      → Good env machine faults cancels job_id (item ∷ items) [] item next w
      → Ends
          (λ _. IsOver)
          Never
          ((elim next as (λ _. App (Unit {0})) [
            | stop ↦ pure tt
            | go_on warning ↦ λ x.
                run_items env machine faults cancels job_id items (with_warning warning warnings) x
          ])
            w)
  next-Ends items item warnings rest stop w (still, over) = (over, still.locked)
  next-Ends items item warnings rest (go_on warning) w (still, _) = rest warning w (record {
    has_job = still.has_job;
    has_items = still.has_items.1;
    locked = still.locked;
    faultless = still.faultless;
  })

  run_items-Ends :
      (items : List StorageMigrationJobItem) (warnings : List String) (w : World)
      → IsReady job_id items [] w
      → Ends (λ _. IsOver) Never (run_items env machine faults cancels job_id items warnings w)
  unfolding run_items with_warning
  run_items-Ends [] warnings w ready = complete_job-Ends [] warnings w ready
  run_items-Ends (item ∷ items) warnings w ready =
      Ends-then (λ _. IsOver) Never (Good env machine faults cancels job_id (item ∷ items) [] item)
        (run_item env machine faults cancels job_id item
          (cancelled_before env machine faults cancels job_id item w))
        _
        (run_item-Ends (item ∷ items) item
          (cancelled_before env machine faults cancels job_id item w)
          (λ w' locks still. still.has_items.0)
          (IsReady-framed job_id (item ∷ items) [] w _ (cancelled_before-IsFramed item w) ready))
        (next-Ends items item warnings
          λ warning w' still. run_items-Ends items (with_warning warning warnings) w' still)

found-select :
    (p : StorageMigrationJobItem → Bool) (xs : List StorageMigrationJobItem)
    → All (λ i. is_some (find? (λ x. x.id == i.id) xs) ≡ true) (select p xs)
unfolding select find?
found-select p [] = tt
found-select p (x ∷ xs) =
    let later : All (λ i. is_some (find? (λ y. y.id == i.id) (x ∷ xs)) ≡ true) (select p xs) =
      All-map (select p xs) (λ i here. ground (arith, here)) (found-select p xs) in
    elim (Bool-cases (p x)) [
      | inl chosen ↦
          let itself : is_some (find? (λ y. y.id == x.id) (x ∷ xs)) ≡ true =
            ground (arith, eq_refl x.id) in
          rw chosen (itself, later)
      | inr other ↦ rw other later
    ]

over-returns :
    (job_id : String) (r : Outcome (Unit {0}) × World)
    → Ends (λ _ w. HasEnded job_id w × (w.locked_share_ids ≡ [])) Never r
    → (r.0 ≡ ok tt) × HasEnded job_id r.1 × (r.1.locked_share_ids ≡ [])
over-returns job_id (ok _, w) (ended, free) = (refl, ended, free)
over-returns job_id (throws e, w) never = elim never [ ]

-- A run of a job, whatever calls of the file system and whatever writes of the shares' rows fail, and
-- whatever requests to cancel come in between, returns without an exception, where the database takes
-- every write of the job and of its items; the job is then at its end, names no share as the current
-- one, and no share is locked. The job's row is there at the start, and no share is locked.
pub run_migration-IsOver :
    (env : Env) (machine : Machine) (faults : String → Faults) (cancels : String → Bool)
    (job_id : String) (job : StorageMigrationJob) (w : World)
    → find_job w job_id ≡ some job
    → w.locked_share_ids ≡ []
    → w.update_faults ≡ []
    → ((run_migration env machine faults cancels job_id w).0 ≡ ok tt)
      × HasEnded job_id (run_migration env machine faults cancels job_id w).1
      × ((run_migration env machine faults cancels job_id w).1.locked_share_ids ≡ [])
unfolding run_migration items_of find_item
run_migration-IsOver env machine faults cancels job_id job w there free faultless =
    let start : StorageMigrationJob → StorageMigrationJob =
      λ j. record j { status = running; started_at = some env.now } in
    let ready : IsReady job_id [] [] w = record {
      has_job = rw there refl;
      has_items = tt;
      locked = free;
      faultless = faultless;
    } in
    over-returns job_id (run_migration env machine faults cancels job_id w) (
      Ends-then (λ _ w. HasEnded job_id w × (w.locked_share_ids ≡ [])) Never _
        (update_job job_id start w) _ (update_job-Ends job_id [] [] start w (λ j. refl) ready)
        λ _ w1 (ready1, j, written).
          run_items-Ends env machine faults cancels job_id (items_of w1 job_id) [] w1 (record {
            has_job = ready1.has_job;
            has_items = found-select (λ i. i.job_id == job_id) w1.migration_items;
            locked = ready1.locked;
            faultless = ready1.faultless;
          }))
