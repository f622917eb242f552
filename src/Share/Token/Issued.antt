-- ===== src/Share/Token/Issued.antt =====
-- What `verifyShareToken` accepts.
use i_transfer.Base.{
  ℕ, ◌≡◌, ◌↔◌, String, true, Option, none, some, inl, inr, arith, same_eq, Option-cases, Bool-cases,
  ◌⊎◌, eq_refl,
}
use mathlib.Core.Bool.{and-eq-true_iff, false}
use i_transfer.Env.{Env, Claims, unix, is_never}
use i_transfer.Share.Token.{names_share, same_time, accepts, verify_share_token}
use i_transfer.World.{World, Share, ok, find_share}

-- The token verifies, at a time that matters only if the share can expire, and names the share and
-- the second of its creation.
pub record IsIssuedFor (env : Env) (s : Share) (token : String) : Type 0 where
  pub claims : Claims
  pub verified : env.verify token (unix env.now) (is_never s.expiration) ≡ some claims
  pub same_share : claims.share_id ≡ some s.id
  pub same_creation : claims.share_created_at ≡ some (unix s.created_at)

same_time_eq : (a : Option ℕ) (t : ℕ) → same_time a t ≡ true → a ≡ some t
unfolding same_time
same_time_eq none t h = cc
same_time_eq (some u) t h = ground arith

names_share_sound :
    (claims : Claims) (s : Share)
    → names_share claims s ≡ true
    → (claims.share_id ≡ some s.id) × (claims.share_created_at ≡ some (unix s.created_at))
unfolding names_share
names_share_sound claims s h =
    let (here, later) = (and-eq-true_iff _ _).0 h in
    (
      same_eq claims.share_id s.id here,
      same_time_eq claims.share_created_at (unix s.created_at) later,
    )

accepts_sound :
    (env : Env) (s : Share) (token : String)
    → accepts env s (some token) ≡ true
    → IsIssuedFor env s token
unfolding accepts
accepts_sound env s token h =
    elim (Option-cases (env.verify token (unix env.now) (is_never s.expiration))) [
      | inl refused ↦ absurd (ground arith)
      | inr (claims, verified) ↦
          let names : names_share claims s ≡ true = ground arith in
          let (a, b) = names_share_sound claims s names in
          record { claims = claims; verified = verified; same_share = a; same_creation = b }
    ]

accepts_complete :
    (env : Env) (s : Share) (token : String)
    → IsIssuedFor env s token
    → accepts env s (some token) ≡ true
unfolding accepts names_share same_time
accepts_complete env s token i =
    ground (arith, i.verified, i.same_share, i.same_creation, eq_refl s.id)

-- A token is accepted for a share exactly if it was issued for it.
pub verify_share_token_iff :
    (env : Env) (w : World) (id token : String) (s : Share)
    → find_share w id ≡ some s
    → (verify_share_token env id (some token) w ≡ (ok true, w)) ↔ IsIssuedFor env s token
unfolding verify_share_token
verify_share_token_iff env w id token s found = (
  λ h. accepts_sound env s token (ground (arith)),
  λ i. ground (arith, accepts_complete env s token i),
)

pub verify_share_token-none :
    (env : Env) (w : World) (id : String) (s : Share)
    → find_share w id ≡ some s
    → verify_share_token env id none w ≡ (ok false, w)
unfolding verify_share_token
verify_share_token-none env w id s found = ground arith

-- For a share that exists the test returns, and changes nothing.
pub verify_share_token_cases :
    (env : Env) (w : World) (id : String) (token : Option String) (s : Share)
    → find_share w id ≡ some s
    → (verify_share_token env id token w ≡ (ok true, w))
      ⊎ (verify_share_token env id token w ≡ (ok false, w))
unfolding verify_share_token
verify_share_token_cases env w id token s found = elim (Bool-cases (accepts env s token)) [
  | inl accepted ↦ inl (ground arith)
  | inr refused ↦ inr (ground arith)
]
