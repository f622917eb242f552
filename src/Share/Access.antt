-- ===== src/Share/Access.antt =====
-- What is shown of a share: `get`, `getMetaData`, `getShares` and `getSharesByUser` of
-- backend/src/share/share.service.ts. The order of the rows is not modelled.
use i_transfer.Base.{
  ℕ, String, Bool, true, false, not, ◌&&◌, ◌||◌, Option, none, some, List, map, length, select,
  total, ltb, truthy, is_some, same, if◌then◌else◌,
}
use i_transfer.Env.{Env, is_never}
use i_transfer.World.{
  World, Share, File, unscanned, clean, Outcome, ok, throws, not_found, find_share, files_of,
}

-- `scanStatus: { in: ["CLEAN", "UNSCANNED"] }`
unfoldable pub is_servable : File → Bool
is_servable f = elim f.scan_status [ unscanned ↦ true | clean ↦ true | _ ↦ false ]

pub record PublicShare : Type 0 where
  pub share : Share
  pub files : List File
  pub has_password : Bool

password_of : Share → Option String
password_of s = elim s.security [ none ↦ none | some sec ↦ truthy sec.password ]

max_views_of : Share → Option ℕ
max_views_of s = elim s.security [ none ↦ none | some sec ↦ sec.max_views ]

visible : World → Share → Outcome PublicShare
visible w s =
    if not s.upload_locked
    then throws (not_found "Share not found")
    else elim (truthy s.removed_reason) [
      | some reason ↦ throws (not_found reason)
      | none ↦ ok (record {
        share = s;
        files = select is_servable (files_of w s.id);
        has_password = is_some (password_of s);
      })
    ]

unfoldable pub get : World → String → Outcome PublicShare
unfolding visible password_of
get w id = elim (find_share w id) [
  | none ↦ throws (not_found "Share not found")
  | some s ↦ visible w s
]

pub record MetaData : Type 0 where
  pub share : Share
  pub is_zip_ready : Bool

described : World → Share → Outcome MetaData
described w s =
    if not s.upload_locked
    then throws (not_found "Share not found")
    else ok
        (record { share = s; is_zip_ready = ltb 1 (length (select is_servable (files_of w s.id))) })

unfoldable pub get_meta_data : World → String → Outcome MetaData
unfolding described
get_meta_data w id = elim (find_share w id) [
  | none ↦ throws (not_found "Share not found")
  | some s ↦ described w s
]

pub record SizedShare : Type 0 where
  pub share : Share
  pub size : ℕ

with_size : World → Share → SizedShare
with_size w s = record { share = s; size = total (λ f. f.size) (files_of w s.id) }

unfoldable pub get_shares : World → List SizedShare
unfolding with_size
get_shares w = map (with_size w) w.shares

pub record MyShare : Type 0 where
  pub sized : SizedShare
  pub max_views : Option ℕ
  pub password_protected : Bool

-- The shares of a user that are complete and not expired.
unfoldable pub is_listed : Env → String → Share → Bool
is_listed env user_id s =
    same s.creator_id (some user_id)
    && (s.upload_locked && (ltb env.now s.expiration || is_never s.expiration))

my_share : World → Share → MyShare
my_share w s = record {
  sized = with_size w s;
  max_views = max_views_of s;
  password_protected = is_some (password_of s);
}

unfoldable pub get_shares_by_user : Env → World → String → List MyShare
unfolding my_share with_size max_views_of password_of
get_shares_by_user env w user_id = map (my_share w) (select (is_listed env user_id) w.shares)
