-- ===== src/Share/Token/RoundTrip.antt =====
-- The tokens that are handed out for a share, and what becomes of them when they come back.
use i_transfer.Base.{
  ℕ, ◌+◌, ◌≤◌, ◌<◌, ◌≡◌, ◌⊎◌, inl, inr, String, true, false, ◌&&◌, some, arith, eqb, ◌==◌, eq_refl,
}
use i_transfer.Env.{Env, unix, is_never, at_time, is_alive, Honours}
use i_transfer.Share.Token.{
  lifetime, share_claims, owner_claims, owner_token, names_share, generate_share_token,
  verify_share_token, verify_anonymous_owner_token,
}
use i_transfer.World.{World, Share, ok, find_share, find_share-id}

-- Up to the second before the last one, as the lifetime is rounded down.
abbrev pub IsFresh : Env → Share → ℕ → Type 0
IsFresh env s t =
    (is_never s.expiration ≡ true) ⊎ ((env.now ≤ t) × (unix t + 1 < unix s.expiration))

lifetime-alive :
    (env : Env) (s : Share) (t : ℕ)
    → IsFresh env s t
    → is_alive (unix env.now) (lifetime env s) (unix t) ≡ true
unfolding lifetime
lifetime-alive env s t (inl never) = ground arith
lifetime-alive env s t (inr soon) = ground arith

-- The token that was handed out for `s` is accepted for the share `s'` of the same id exactly if
-- `s'` was created in the same second, as long as `s` has not expired.
pub verify_share_token-generate_share_token :
    (env : Env) (w w' : World) (id token : String) (s s' : Share) (t : ℕ)
    → Honours env (share_claims s) (unix env.now) (lifetime env s)
    → find_share w id ≡ some s
    → generate_share_token env id w ≡ (ok token, w)
    → find_share w' id ≡ some s'
    → IsFresh env s t
    → verify_share_token (at_time t env) id (some token) w'
      ≡ (ok (eqb (unix s.created_at) (unix s'.created_at)), w')
unfolding generate_share_token verify_share_token share_claims names_share
verify_share_token-generate_share_token env w w' id token s s' t law found made found' fresh =
    ground (
      arith,
      law (unix t) (is_never s'.expiration),
      lifetime-alive env s t fresh,
      find_share-id w id s found,
      find_share-id w' id s' found',
      eq_refl id,
    )

-- A share token is never taken for the token of a share's anonymous owner, whatever the share and
-- the time.
pub verify_anonymous_owner_token-share_token :
    (env : Env) (s s' : Share) (t : ℕ)
    → Honours env (share_claims s) (unix env.now) (lifetime env s)
    → verify_anonymous_owner_token
        (at_time t env)
        s'
        (some (env.sign (share_claims s) (unix env.now) (lifetime env s)))
      ≡ false
unfolding verify_anonymous_owner_token share_claims
verify_anonymous_owner_token-share_token env s s' t law =
    ground (arith, law (unix t) (is_never s'.expiration))

-- The token of an anonymous owner is taken for what it is, exactly by the shares of that id and
-- second of creation, as long as the share has not expired.
pub verify_anonymous_owner_token-owner_token :
    (env : Env) (s s' : Share) (t : ℕ)
    → Honours env (owner_claims s) (unix env.now) (lifetime env s)
    → (owner_token env s == "") ≡ false
    → IsFresh env s t
    → verify_anonymous_owner_token (at_time t env) s' (some (owner_token env s))
      ≡ ((s.id == s'.id) && eqb (unix s.created_at) (unix s'.created_at))
unfolding verify_anonymous_owner_token owner_token owner_claims share_claims names_share
verify_anonymous_owner_token-owner_token env s s' t law nonempty fresh = ground (
  arith,
  law (unix t) (is_never s'.expiration),
  lifetime-alive env s t fresh,
  eq_refl "shareOwner",
)
