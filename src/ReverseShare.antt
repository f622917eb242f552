-- ===== src/ReverseShare.antt =====
-- The reverse shares: `create`, `getAllByUser` and `remove` of
-- backend/src/reverseShare/reverseShare.service.ts. The identifier and the token that the database
-- draws are arguments.
use i_transfer.Base.{
  ℕ, String, Bool, true, false, not, ◌&&◌, ◌||◌, Option, none, some, List, [], ◌∷◌, ◌==◌, ltb, eqb,
  same, select, delete_where, is_some, ℤ, if◌then◌else◌,
}
use i_transfer.Env.{Env}
use i_transfer.Share.Expiration.{RelativeDate, never, after, parse_relative_date_to_absolute}
use i_transfer.Storage.{delete_all_files}
use i_transfer.World.{
  World, Share, ReverseShare, App, ok, throws, pure, gets, throw_if, unique_violation,
  record_not_found, ◌>>=◌, ◌>>◌, bad_request, find_reverse_share, find_reverse_share_by_token,
  delete_share,
}

-- `CreateReverseShareDTO`, with the expiration split into its parts.
pub record CreateReverseShare : Type 0 where
  pub share_expiration : RelativeDate
  pub max_share_size : ℕ
  pub max_use_count : ℤ
  pub send_email_notification : Bool
  pub simplified : Bool
  pub public_access : Bool

-- `moment().add(n, unit)`; for "never" moment is given no number and adds nothing.
unfoldable pub expiration_date : Env → RelativeDate → ℕ
expiration_date env never = env.now
expiration_date env (after span) = env.add env.now span

-- The test of `create`; unlike the one for a share, it lets "never" pass.
unfoldable pub exceeds_max_share_expiration : Env → ℕ → Bool
exceeds_max_share_expiration env t =
    let max = env.settings.max_expiration in not (eqb max.value 0) && ltb (env.add env.now max) t

insert_reverse_share : ReverseShare → App (Unit {0})
insert_reverse_share r w =
    if is_some (find_reverse_share_by_token w r.token)
    then (throws unique_violation, w)
    else (ok tt, record w { reverse_shares = r ∷ w.reverse_shares })

unfoldable pub create : Env → (id token : String) → CreateReverseShare → String → App String
unfolding insert_reverse_share
create env id token data_ creator_id = do
  throw_if
      (exceeds_max_share_expiration env
        (parse_relative_date_to_absolute env data_.share_expiration))
      (bad_request "Expiration date exceeds maximum expiration date")
  throw_if (ltb env.settings.max_size data_.max_share_size)
      (bad_request "Max share size can't be greater than the maximum share size")
  insert_reverse_share (record {
    id = id;
    token = token;
    share_expiration = expiration_date env data_.share_expiration;
    max_share_size = data_.max_share_size;
    send_email_notification = data_.send_email_notification;
    remaining_uses = data_.max_use_count;
    simplified = data_.simplified;
    public_access = data_.public_access;
    creator_id = creator_id;
  })
  pure token

-- The rows that are still running, in the order of the table.
unfoldable pub get_all_by_user : Env → World → String → List ReverseShare
get_all_by_user env w user_id =
    select (λ r. r.creator_id == user_id && ltb env.now r.share_expiration) w.reverse_shares

module _ (env : Env) where
  -- `for (const share of shares)`
  unfoldable pub delete_shares : List Share → App (Unit {0})
  delete_shares [] w = (ok tt, w)
  delete_shares (s ∷ shares) w =
      let rest = delete_shares shares in (delete_all_files env s.id >> delete_share s.id >> rest) w

  -- `prisma.reverseShare.delete`, with the shares that `onDelete: Cascade` removes.
  delete_reverse_share : String → App (Unit {0})
  delete_reverse_share id w = elim (find_reverse_share w id) [
    | none ↦ (throws record_not_found, w)
    | some r ↦ (
      ok tt,
      record w {
        reverse_shares = delete_where (λ r. r.id == id) w.reverse_shares;
        files =
            delete_where
              (λ f. is_some (
                i_transfer.Base.find?
                  (λ (s : Share). s.id == f.share_id && same s.reverse_share_id (some id))
                  w.shares))
              w.files;
        shares = delete_where (λ s. same s.reverse_share_id (some id)) w.shares;
      },
    )
  ]

  unfoldable pub remove : String → App (Unit {0})
  unfolding delete_shares delete_reverse_share
  remove id = do
    shares ← gets (λ w. select (λ s. same s.reverse_share_id (some id)) w.shares)
    delete_shares shares
    delete_reverse_share id
