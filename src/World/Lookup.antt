-- ===== src/World/Lookup.antt =====
-- What the queries find before and after a write.
use mathlib.Core.Option
use i_transfer.Base.{
  ◌≡◌, String, none, some, List, [], ◌∷◌, arith, ◌==◌, eq_iff, find?, update_where, find?-holds,
  if◌then◌else◌,
}
use i_transfer.World.State.{World}
use i_transfer.World.Tables.{Share, User}
use i_transfer.World.Handler.{ok, throws, record_not_found}
use i_transfer.World.Queries.{find_share, find_user, update_share}

pub find_share-id : (w : World) (id : String) (s : Share) → find_share w id ≡ some s → s.id ≡ id
unfolding find_share
find_share-id w id s h = (eq_iff s.id id).0 (find?-holds (λ x. x.id == id) w.shares h)

pub find_user-id : (w : World) (id : String) (u : User) → find_user w id ≡ some u → u.id ≡ id
unfolding find_user
find_user-id w id u h = (eq_iff u.id id).0 (find?-holds (λ x. x.id == id) w.users h)

-- The share of an id after an update of the share of another or the same id.
pub find?-update_share :
    (id j : String) (f : Share → Share) (shares : List Share)
    → ((s : Share) → (f s).id ≡ s.id)
    → find? (λ s. s.id == j) (update_where (λ s. s.id == id) f shares) ≡ (
        if id == j
        then Option.map f (find? (λ s. s.id == j) shares)
        else find? (λ s. s.id == j) shares)
unfolding find? update_where
find?-update_share id j f [] keeps = ground arith
find?-update_share id j f (s ∷ shares) keeps = ground (
  arith,
  keeps s,
  eq_iff s.id id,
  eq_iff s.id j,
  eq_iff id j,
  find?-update_share id j f shares keeps,
)

-- What `update` does where the row is there, and where it is not.
pub update_share-some :
    (w : World) (id : String) (f : Share → Share) {s : Share}
    → find_share w id ≡ some s
    → update_share id f w
      ≡ (ok (f s), record w { shares = update_where (λ s. s.id == id) f w.shares })
unfolding update_share
update_share-some w id f found = rw (found, update_share)

pub update_share-none :
    (w : World) (id : String) (f : Share → Share)
    → find_share w id ≡ none
    → update_share id f w ≡ (throws record_not_found, w)
unfolding update_share
update_share-none w id f missing = rw (missing, update_share)
