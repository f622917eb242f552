-- ===== src/World/Queries.antt =====
-- The queries that the services make through Prisma.
use i_transfer.Base.{
  String, Option, none, some, List, ◌==◌, find?, select, update_where, delete_where,
}
use i_transfer.World.State.{World}
use i_transfer.World.Tables.{User, Share, ReverseShare, File}
use i_transfer.World.Handler.{App, ok, throws, record_not_found}

-- `prisma.share.findUnique({ where: { id } })`
unfoldable pub find_share : World → String → Option Share
find_share w id = find? (λ s. s.id == id) w.shares

unfoldable pub find_user : World → String → Option User
find_user w id = find? (λ u. u.id == id) w.users

unfoldable pub find_file : World → String → Option File
find_file w id = find? (λ f. f.id == id) w.files

unfoldable pub find_reverse_share : World → String → Option ReverseShare
find_reverse_share w id = find? (λ r. r.id == id) w.reverse_shares

unfoldable pub find_reverse_share_by_token : World → String → Option ReverseShare
find_reverse_share_by_token w token = find? (λ r. r.token == token) w.reverse_shares

-- `share.files` of a query that includes them.
unfoldable pub files_of : World → String → List File
files_of w share_id = select (λ f. f.share_id == share_id) w.files

-- `share.reverseShare` of a query that includes it.
unfoldable pub reverse_share_of : World → Share → Option ReverseShare
reverse_share_of w s = elim s.reverse_share_id [ none ↦ none | some id ↦ find_reverse_share w id ]

-- `share.creator` of a query that includes it.
unfoldable pub creator_of : World → Share → Option User
creator_of w s = elim s.creator_id [ none ↦ none | some id ↦ find_user w id ]

-- `prisma.share.update({ where: { id }, data })`: throws where there is no such row.
unfoldable pub update_share : String → (Share → Share) → App Share
update_share id f w = elim (find_share w id) [
  | none ↦ (throws record_not_found, w)
  | some s ↦ (ok (f s), record w { shares = update_where (λ s. s.id == id) f w.shares })
]

unfoldable pub update_reverse_share : String → (ReverseShare → ReverseShare) → App ReverseShare
update_reverse_share token f w = elim (find_reverse_share_by_token w token) [
  | none ↦ (throws record_not_found, w)
  | some r ↦ (
    ok (f r),
    record w { reverse_shares = update_where (λ r. r.token == token) f w.reverse_shares },
  )
]

unfoldable pub update_user : String → (User → User) → App User
update_user id f w = elim (find_user w id) [
  | none ↦ (throws record_not_found, w)
  | some u ↦ (ok (f u), record w { users = update_where (λ u. u.id == id) f w.users })
]

unfoldable pub update_file : String → (File → File) → App File
update_file id f w = elim (find_file w id) [
  | none ↦ (throws record_not_found, w)
  | some x ↦ (ok (f x), record w { files = update_where (λ x. x.id == id) f w.files })
]

-- `prisma.share.delete({ where: { id } })`: its files go with it (`onDelete: Cascade`).
unfoldable pub delete_share : String → App (Unit {0})
delete_share id w = elim (find_share w id) [
  | none ↦ (throws record_not_found, w)
  | some s ↦ (
    ok tt,
    record w {
      shares = delete_where (λ s. s.id == id) w.shares;
      files = delete_where (λ f. f.share_id == id) w.files;
    },
  )
]
