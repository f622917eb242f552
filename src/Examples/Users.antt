-- ===== src/Examples/Users.antt =====
-- The theorems on accounts and on the jobs at concrete inputs.
use i_transfer.Base.{
  ℕ, String, Bool, true, false, ◌+◌, ◌≤◌, ◌≡◌, refl, Option, none, some, List, [], ◌∷◌, arith,
  HasDistinctKeys,
}
use i_transfer.Env.{Env}
use i_transfer.Examples.{env_signing, docs, inbox, world, alice}
use i_transfer.Jobs.{is_overdue, delete_expired_shares}
use i_transfer.Jobs.Cleanup.{delete_expired_shares-spares}
use i_transfer.Share.Token.{owner_claims}
use i_transfer.User.{UpdateUser, missing, update, delete, active_admin_count}
use i_transfer.User.{Transfer, transfer_ownership}
use i_transfer.User.Ownership.{IsMoved, transfer_ownership-IsMoved}
use i_transfer.World.{ok}
use i_transfer.User.Admins.{update-HasActiveAdmin, delete-HasActiveAdmin}
use i_transfer.World.{World, User, find_share}

abbrev env : Env
env = env_signing (owner_claims docs)

-- Two administrators, and a share that expired at 6,000 ms.
abbrev bob : User
bob = record alice { id = "bob"; username = "bob"; email = "bob@example.org" }

abbrev staffed : World
staffed = record world {
  users = alice ∷ bob ∷ [];
  shares = record inbox { expiration = 6000 } ∷ docs ∷ [];
}

abbrev demotion : UpdateUser
demotion = record {
  username = none;
  email = none;
  password = none;
  is_admin = some false;
  is_disabled = none;
  storage_quota_bytes = missing;
}

one_is_there : 1 ≤ active_admin_count staffed
unfolding i_transfer.Base.count
one_is_there = omega arith

distinct_users : HasDistinctKeys (λ u. u.id) staffed.users
distinct_users = ((refl, tt), (tt, tt))

distinct_shares : HasDistinctKeys (λ s. s.id) staffed.shares
distinct_shares = ((refl, tt), (tt, tt))

find_docs : find_share staffed "docs" ≡ some docs
unfolding find_share i_transfer.Base.find?
find_docs = refl

kept : is_overdue env docs ≡ false
unfolding is_overdue
kept = refl

update-HasActiveAdmin_example : 1 ≤ active_admin_count (update env "alice" demotion staffed).1
update-HasActiveAdmin_example =
    update-HasActiveAdmin env "alice" demotion staffed distinct_users one_is_there

delete-HasActiveAdmin_example : 1 ≤ active_admin_count (delete env "bob" staffed).1
delete-HasActiveAdmin_example = delete-HasActiveAdmin env "bob" staffed distinct_users one_is_there

delete_expired_shares-spares_example :
    find_share (delete_expired_shares env staffed).1 "docs" ≡ some docs
delete_expired_shares-spares_example =
    delete_expired_shares-spares env "docs" staffed distinct_shares find_docs kept

abbrev transfer : Transfer
transfer = record {
  source_user_id = "alice";
  target_user_id = "bob";
  shares_transferred = 2;
  reverse_shares_transferred = 0;
  total_size_bytes = 0;
}

transferred :
    transfer_ownership "alice" "bob" true staffed
    ≡ (ok transfer, (transfer_ownership "alice" "bob" true staffed).1)
unfolding transfer_ownership i_transfer.World.find_user i_transfer.Base.find?
    i_transfer.User.get_transfer_ownership_summary i_transfer.Base.count i_transfer.Base.total
    i_transfer.Base.select
transferred = refl

transfer_ownership-IsMoved_example :
    IsMoved "alice" "bob" staffed transfer (transfer_ownership "alice" "bob" true staffed).1
transfer_ownership-IsMoved_example =
    transfer_ownership-IsMoved "alice" "bob" true staffed
      (transfer_ownership "alice" "bob" true staffed).1 transfer transferred
