-- ===== src/Guard/Upload/Owners.antt =====
-- Who owns a share, to the share owner guard and to the upload guard.
use i_transfer.Base.{◌≡◌, inl, inr, String, true, Option-cases, Option, some, arith}
use i_transfer.Env.{Env}
use i_transfer.Guard.Jwt.{Request, Activation}
use i_transfer.Guard.Owner.{is_owner, share_owner_guard}
use i_transfer.Guard.Upload.{is_share_owner}
use i_transfer.Guard.Upload.Rights.{
  has_owner_token-verify_anonymous_owner_token, IsOwnerOf, is_share_owner_sound,
}
use i_transfer.World.{World, User, Share, ok, find_share}

-- For a share and a user, the condition of the share owner guard and that of the upload guard, each with
-- its own test of the anonymous owner's token, take the same requests for the owner's.
pub is_owner-is_share_owner :
    (env : Env) (req : Request) (s : Share) (user : Option User)
    → is_owner env req s user ≡ is_share_owner env req s user
unfolding is_owner is_share_owner
is_owner-is_share_owner env req s user = elim (Option-cases s.creator_id) [
  | inl missing ↦ ground (arith, has_owner_token-verify_anonymous_owner_token env req s)
  | inr (c, present) ↦ ground arith
]

-- A request that the share owner guard admits is for a share that exists, and the user whom the JWT
-- guard finds is an administrator or the share's creator, or the share is anonymous and the request
-- carries the token of its owner.
pub share_owner_guard_sound :
    (env : Env) (req : Request) (w : World) (id : String) (a : Activation)
    → (share_owner_guard env req id w).0 ≡ ok a
    → a.allowed ≡ true
    → (s : Share) × (find_share w id ≡ some s) × IsOwnerOf env req s a.user
unfolding share_owner_guard
share_owner_guard_sound env req w id a h allowed = elim (Option-cases (find_share w id)) [
  | inl missing ↦ absurd (ground arith)
  | inr (s, found) ↦ (
    s,
    found,
    is_share_owner_sound env req s a.user
        (ground (arith, is_owner-is_share_owner env req s a.user)),
  )
]
