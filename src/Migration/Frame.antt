-- ===== src/Migration/Frame.antt =====
-- What the steps of a migration leave as it is: which jobs and items there are, and the locks.
use i_transfer.Base.{
  ◌≡◌, refl, sym, ◌∙◌, Bool, true, false, List, [], ◌∷◌, String, Option, none, some, ◌==◌, find?,
  find?-update_where, update_where, is_some, arith,
}
use i_transfer.Migration.{
  attempt, write_item, write_job, find_item, find_job, update_item, update_job,
}
use i_transfer.World.{
  World, App, Outcome, ok, throws, record_not_found, StorageMigrationJob, StorageMigrationJobItem,
}

pub record IsFramed (before w : World) : Type 0 where
  pub has_job : (id : String) → is_some (find_job w id) ≡ is_some (find_job before id)
  pub has_item : (id : String) → is_some (find_item w id) ≡ is_some (find_item before id)
  pub locked : w.locked_share_ids ≡ before.locked_share_ids
  pub faultless : before.update_faults ≡ [] → w.update_faults ≡ []

-- Nothing of the three is touched.
pub same_tables :
    (before w : World)
    → w.migration_jobs ≡ before.migration_jobs
    → w.migration_items ≡ before.migration_items
    → w.locked_share_ids ≡ before.locked_share_ids
    → w.update_faults ≡ before.update_faults
    → IsFramed before w
unfolding find_job find_item
same_tables before w jobs items locks faults = record {
  has_job = λ id. rw jobs refl;
  has_item = λ id. rw items refl;
  locked = locks;
  faultless = λ none_left. faults ∙ none_left;
}

pub framed : (w : World) → IsFramed w w
framed w = same_tables w w refl refl refl refl

pub IsFramed-trans : (a b c : World) → IsFramed a b → IsFramed b c → IsFramed a c
IsFramed-trans a b c f g = record {
  has_job = λ id. g.has_job id ∙ f.has_job id;
  has_item = λ id. g.has_item id ∙ f.has_item id;
  locked = g.locked ∙ f.locked;
  faultless = λ none_left. g.faultless (f.faultless none_left);
}

attempt-IsFramed :
    (write : App (Unit {0}))
    → ((w : World) → IsFramed w (write w).1)
    → (w : World) → IsFramed w (attempt w.update_faults write w).1
unfolding attempt find_job find_item
attempt-IsFramed write keeps w = go w.update_faults refl
  where
    -- The next fault is gone, and then there was one.
    popped :
        (b : Bool) (faults : List Bool) (v : World)
        → w.update_faults ≡ b ∷ faults
        → IsFramed (record w { update_faults = faults }) v
        → IsFramed w v
    popped b faults v is same = record {
      has_job = same.has_job;
      has_item = same.has_item;
      locked = same.locked;
      faultless = λ none_left. let never = sym is ∙ none_left in absurd (cc);
    }

    go : (faults : List Bool) → w.update_faults ≡ faults → IsFramed w (attempt faults write w).1
    go [] is = keeps w
    go (true ∷ faults) is =
        popped true faults (record w { update_faults = faults }) is
          (framed (record w { update_faults = faults }))
    go (false ∷ faults) is = popped false faults _ is (keeps (record w { update_faults = faults }))

-- What a write keeps, for any faults to come, an attempt keeps.
pub attempt-keeps :
    (P : World → Type 0) (write : App (Unit {0})) (w : World)
    → ((faults : List Bool) → P (record w { update_faults = faults }))
    → ((v : World) → P v → P (write v).1)
    → P w
    → P (attempt w.update_faults write w).1
unfolding attempt
attempt-keeps P write w pops keeps p = go w.update_faults
  where
    go : (faults : List Bool) → P (attempt faults write w).1
    go [] = keeps w p
    go (true ∷ faults) = pops faults
    go (false ∷ faults) = keeps _ (pops faults)

write_job-IsFramed :
    (id : String) (f : StorageMigrationJob → StorageMigrationJob) (w : World)
    → ((j : StorageMigrationJob) → (f j).id ≡ j.id)
    → IsFramed w (write_job id f w).1
unfolding write_job find_job find_item
write_job-IsFramed id f w keeps = go (find? (λ j. j.id == id) w.migration_jobs)
  where
    after : World
    after = record w { migration_jobs = update_where (λ j. j.id == id) f w.migration_jobs }

    go :
        (o : Option StorageMigrationJob)
        → IsFramed w (
            (elim o as (λ _. Outcome (Unit {0}) × World) [
              | none ↦ (throws record_not_found, w)
              | some j ↦ (ok tt, after)
            ]).1)
    go none = framed w
    go (some j) = record {
      has_job = λ k. ground (
        arith,
        find?-update_where (λ j. j.id == k) (λ j. j.id == id) f w.migration_jobs
            (λ j. rw (keeps j) refl),
      );
      has_item = λ k. refl;
      locked = refl;
      faultless = λ none_left. none_left;
    }

write_item-IsFramed :
    (id : String) (f : StorageMigrationJobItem → StorageMigrationJobItem) (w : World)
    → ((i : StorageMigrationJobItem) → (f i).id ≡ i.id)
    → IsFramed w (write_item id f w).1
unfolding write_item find_job find_item
write_item-IsFramed id f w keeps = go (find? (λ i. i.id == id) w.migration_items)
  where
    after : World
    after = record w { migration_items = update_where (λ i. i.id == id) f w.migration_items }

    go :
        (o : Option StorageMigrationJobItem)
        → IsFramed w (
            (elim o as (λ _. Outcome (Unit {0}) × World) [
              | none ↦ (throws record_not_found, w)
              | some j ↦ (ok tt, after)
            ]).1)
    go none = framed w
    go (some i) = record {
      has_job = λ k. refl;
      has_item = λ k. ground (
        arith,
        find?-update_where (λ j. j.id == k) (λ j. j.id == id) f w.migration_items
            (λ j. rw (keeps j) refl),
      );
      locked = refl;
      faultless = λ none_left. none_left;
    }

pub update_job-IsFramed :
    (id : String) (f : StorageMigrationJob → StorageMigrationJob) (w : World)
    → ((j : StorageMigrationJob) → (f j).id ≡ j.id)
    → IsFramed w (update_job id f w).1
unfolding update_job
update_job-IsFramed id f w keeps =
    attempt-IsFramed (write_job id f) (λ v. write_job-IsFramed id f v keeps) w

pub update_item-IsFramed :
    (id : String) (f : StorageMigrationJobItem → StorageMigrationJobItem) (w : World)
    → ((i : StorageMigrationJobItem) → (f i).id ≡ i.id)
    → IsFramed w (update_item id f w).1
unfolding update_item
update_item-IsFramed id f w keeps =
    attempt-IsFramed (write_item id f) (λ v. write_item-IsFramed id f v keeps) w
