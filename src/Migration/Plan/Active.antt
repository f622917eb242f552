-- ===== src/Migration/Plan/Active.antt =====
-- When a migration is created, and how many are active then.
use i_transfer.Base.{
  ℕ, ◌+◌, ◌≤◌, ◌≡◌, refl, ap, ◌∙◌, String, Bool, true, false, Option, none, List, [], ◌∷◌, ◌++◌,
  map, total, eqb, some, length, ltb, count, find?, eq_refl, arith, Bool-cases, Option-cases, inl,
  inr, if◌then◌else◌,
}
use i_transfer.Env.{Env}
use i_transfer.Migration.{
  Machine, ensure_no_active_migration, find_job, get_active_migration, get_migration_job, is_active,
}
use i_transfer.Migration.Plan.{
  MigrationPlan, MigrationPlanItem, new_item, Volume, build_migration_plan, create_dry_run,
  create_migration, insert_migration, new_job, require_target_path, resolve_target_root,
  validate_target_path,
}
use i_transfer.World.Migrations.{pending, completed}
use i_transfer.World.{
  World, StorageMigrationJob, StorageMigrationJobItem, Outcome, ok, throws, throw_if, bad_request,
  Ends, Ends-guard, Ends-keeping, Ends-is, Ends-ok, Ends-after, Ends-refused, Ends-of, Ends-state,
  resume, modify, ◌>>◌,
}

-- The number of jobs that are not at their end.
pub active_count : World → ℕ
active_count w = count (λ j. is_active j.status) w.migration_jobs

-- The row of the job, and that of an item of the plan.
abbrev pub job_row : Env → (job_id : String) → Bool → MigrationPlan → StorageMigrationJob
job_row env job_id delete_roots plan = record {
  id = job_id;
  status = if eqb (length plan.items) 0 then completed else pending;
  target_path = plan.target_path;
  total_shares = length plan.items;
  moved_shares = 0;
  skipped_shares = 0;
  failed_shares = 0;
  total_bytes = total (λ i. i.bytes) plan.items;
  moved_bytes = 0;
  delete_empty_source_roots = delete_roots;
  current_share_id = none;
  error_message = none;
  started_at = none;
  completed_at = if eqb (length plan.items) 0 then some env.now else none;
}

abbrev pub item_row :
    (job_id : String) → (String → String) → MigrationPlanItem → StorageMigrationJobItem
item_row job_id item_id i = record {
  id = item_id i.share_id;
  job_id = job_id;
  share_id = some i.share_id;
  status = pending;
  source_path = i.from_directory;
  target_path = i.to_directory;
  files = i.file_count;
  bytes = i.bytes;
  error_message = none;
}

-- A migration that was created.
pub record IsCreated (env : Env) (machine : Machine) (volume : Volume) (job_id : String)
    (item_id : String → String) (target : Option String) (delete_roots : Bool) (w : World)
    (job : StorageMigrationJob) (w' : World) : Type 0 where
  pub plan : MigrationPlan
  pub none_active : active_count w ≡ 0
  pub planned : create_dry_run env machine volume target w ≡ (ok plan, w)
  pub no_issue : ltb 0 (length plan.blocking_issues) ≡ false
  pub same_job : job ≡ job_row env job_id delete_roots plan
  pub written : w' ≡ record w {
    migration_jobs = job ∷ w.migration_jobs;
    migration_items = w.migration_items ++ map (item_row job_id item_id) plan.items;
  }
  pub one_active : active_count w' ≤ 1

find?-count : {A : Type 0} (p : A → Bool) (xs : List A) → find? p xs ≡ none → count p xs ≡ 0
unfolding find? count
find?-count p [] h = refl
find?-count p (x ∷ xs) h = ground (arith, find?-count p xs)

at_most_one : (b : Bool) (n : ℕ) → n ≡ 0 → (if b then 1 else 0) + n ≤ 1
at_most_one true n none_left = omega arith
at_most_one false n none_left = omega arith

module _ (env : Env) (machine : Machine) (volume : Volume) where
  require_target_path-state :
      (target : String) (w : World) → (require_target_path env machine volume target w).1 ≡ w
  unfolding require_target_path
  require_target_path-state target w =
      elim (Bool-cases (ltb 0 (length (validate_target_path env machine volume target).errors))) [
        | inl invalid ↦ rw invalid refl
        | inr valid ↦ rw valid refl
      ]

  build_migration_plan-state :
      (target : String) (w : World) → (build_migration_plan env machine volume target w).1 ≡ w
  unfolding build_migration_plan
  build_migration_plan-state target w =
      let Same : World → Type 0 = λ w'. w' ≡ w in
      Ends-state Same (build_migration_plan env machine volume target w) (
        Ends-keeping (λ _. Same) Same (require_target_path env machine volume target w) _ w
          (require_target_path-state target w) refl (λ v. refl))

  create_dry_run-state :
      (target : Option String) (w : World) → (create_dry_run env machine volume target w).1 ≡ w
  unfolding create_dry_run
  create_dry_run-state target w =
      let Same : World → Type 0 = λ w'. w' ≡ w in
      let root : String = resolve_target_root env machine volume target in
      Ends-state Same (create_dry_run env machine volume target w) (
        Ends-keeping (λ _. Same) Same (require_target_path env machine volume root w) _ w
          (require_target_path-state root w) refl
          (λ v.
            Ends-of Same (build_migration_plan env machine volume v.normalized_path w)
              (build_migration_plan-state v.normalized_path w)))

  module _ (job_id : String) (item_id : String → String) (target : Option String)
      (delete_roots : Bool) (w : World) where
    -- What follows on the dry run.
    planned-Ends :
        (r : Outcome MigrationPlan × World)
        → create_dry_run env machine volume target w ≡ r
        → r.1 ≡ w
        → active_count w ≡ 0
        → Ends
            (IsCreated env machine volume job_id item_id target delete_roots w)
            (λ w'. w' ≡ w)
            (resume r λ plan. do
              throw_if
                  (ltb 0 (length plan.blocking_issues))
                  (bad_request "Storage migration has blocking issues")
              modify (insert_migration env machine volume job_id item_id delete_roots plan)
              get_migration_job job_id)
    unfolding active_count insert_migration new_job new_item get_migration_job find_job find? count
    planned-Ends (throws e, w1) planned same idle = same
    planned-Ends (ok plan, w1) planned same idle =
        let R : StorageMigrationJob → World → Type 0 =
          IsCreated env machine volume job_id item_id target delete_roots w in
        let Same : World → Type 0 = λ w'. w' ≡ w in
        let after : World =
          insert_migration env machine volume job_id item_id delete_roots plan w1 in
        Ends-guard R Same (ltb 0 (length plan.blocking_issues))
          (bad_request "Storage migration has blocking issues") w1 _ same
          λ no_issue.
            Ends-is R Same (get_migration_job job_id after)
              (new_job env machine volume job_id delete_roots plan) after (rw (eq_refl job_id) refl)
              (record {
                plan = plan;
                none_active = idle;
                planned = planned ∙ (λ i. (ok plan, same i));
                no_issue = no_issue;
                same_job = refl;
                written =
                    ap (insert_migration env machine volume job_id item_id delete_roots plan) same;
                one_active =
                    at_most_one
                      (is_active (new_job env machine volume job_id delete_roots plan).status)
                      (active_count w1) (ap active_count same ∙ idle);
              })

    create_migration-Ends :
        Ends
          (IsCreated env machine volume job_id item_id target delete_roots w)
          (λ w'. w' ≡ w)
          (create_migration env machine volume job_id item_id target delete_roots w)
    unfolding create_migration ensure_no_active_migration get_active_migration active_count
    create_migration-Ends =
        let R : StorageMigrationJob → World → Type 0 =
          IsCreated env machine volume job_id item_id target delete_roots w in
        let Same : World → Type 0 = λ w'. w' ≡ w in
        elim (Option-cases (get_active_migration w)) [
          | inr (j, active) ↦
              Ends-refused R Same (ensure_no_active_migration w) _
                (bad_request "A storage migration is already running") w
                (rw (active, ensure_no_active_migration) refl) refl
          | inl clear ↦
              Ends-after R Same (ensure_no_active_migration w) _ tt w
                (rw (clear, ensure_no_active_migration) refl)
                (planned-Ends (create_dry_run env machine volume target w) refl
                  (create_dry_run-state target w)
                  (find?-count (λ j. is_active j.status) w.migration_jobs clear))
        ]

-- A migration that is created is the dry run's: no job was active and there was no issue, the job's row
-- and one row for each item of the plan, in its order, are written and nothing else, and at most one job is active then.
pub create_migration-IsCreated :
    (env : Env) (machine : Machine) (volume : Volume) (job_id : String) (item_id : String → String)
    (target : Option String) (delete_roots : Bool) (w : World) (job : StorageMigrationJob)
    (w' : World)
    → create_migration env machine volume job_id item_id target delete_roots w ≡ (ok job, w')
    → IsCreated env machine volume job_id item_id target delete_roots w job w'
create_migration-IsCreated env machine volume job_id item_id target delete_roots w job w' returns =
    Ends-ok _ (λ w'. w' ≡ w)
      (create_migration env machine volume job_id item_id target delete_roots w) job w' returns
      (create_migration-Ends env machine volume job_id item_id target delete_roots w)
