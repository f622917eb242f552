-- ===== src/Jobs.antt =====
-- The jobs that clean up: `deleteExpiredShares`, `deleteExpiredReverseShares`,
-- `deleteUnfinishedShares` and `deleteExpiredTokens` of backend/src/jobs/jobs.service.ts.
pub mod Cleanup
use i_transfer.Base.{
  ℕ, String, Bool, true, false, not, ◌&&◌, Option, none, some, List, [], ◌∷◌, ltb, select,
  delete_where,
}
use i_transfer.Env.{Env, is_never}
use i_transfer.ReverseShare
use i_transfer.ReverseShare.{delete_shares}
use i_transfer.World.{
  World, Share, ReverseShare, App, Outcome, ok, throws, pure, gets, modify, ◌>>=◌, ◌>>◌,
}

-- `expiration < now` and not `moment(0)`
unfoldable pub is_overdue : Env → Share → Bool
is_overdue env s = ltb s.expiration env.now && not (is_never s.expiration)

pub delete_expired_shares : Env → App (Unit {0})
delete_expired_shares env = do
  expired ← gets (λ w. select (is_overdue env) w.shares)
  delete_shares env expired

unfoldable pub remove_all : Env → List ReverseShare → App (Unit {0})
remove_all env [] w = (ok tt, w)
remove_all env (r ∷ rows) w =
    let rest = remove_all env rows in (ReverseShare.remove env r.id >> rest) w

unfoldable pub delete_expired_reverse_shares : Env → App (Unit {0})
delete_expired_reverse_shares env = do
  expired ← gets (λ w. select (λ r. ltb r.share_expiration env.now) w.reverse_shares)
  remove_all env expired

-- `moment().subtract(1, "day")` is an argument.
unfoldable pub delete_unfinished_shares : (yesterday : ℕ) → Env → App (Unit {0})
delete_unfinished_shares yesterday env = do
  unfinished ← gets (λ w. select (λ s. ltb s.created_at yesterday && not s.upload_locked) w.shares)
  delete_shares env unfinished

unfoldable pub delete_expired_tokens : Env → App (Unit {0})
delete_expired_tokens env = modify (λ w. record w {
  refresh_tokens = delete_where (λ t. ltb t.expires_at env.now) w.refresh_tokens;
  login_tokens = delete_where (λ t. ltb t.expires_at env.now) w.login_tokens;
  reset_tokens = delete_where (λ t. ltb t.expires_at env.now) w.reset_tokens;
})
