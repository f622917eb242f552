-- ===== src/Guard/Security/Admission.antt =====
-- Whom the share security guard admits.
use i_transfer.Base.{
  ◌≡◌, ◌⊎◌, inl, inr, String, true, false, Bool-cases, Option-cases, Option, some, arith, same,
  same_sound,
}
use i_transfer.Env.{Env}
use i_transfer.Guard.Jwt.{Request, Activation}
use i_transfer.Guard.Owner.{id_of}
use i_transfer.Guard.Security.{token_cookie, live_share, is_private_to_others, share_security_guard}
use i_transfer.Share.Expiration.{is_expired}
use i_transfer.Share.Token.Issued.{
  IsIssuedFor, verify_share_token_iff, verify_share_token-none, verify_share_token_cases,
}
use i_transfer.World.{World, User, Share, ReverseShare, ok, find_share, reverse_share_of}

-- The user of the request has this id.
abbrev pub IsUser : Option User → Option String → Type 0
IsUser user id = (x : String) × (id ≡ some x) × (id_of user ≡ some x)

-- A share that came in through a reverse share is for everybody if that is public, and else for
-- the two creators.
abbrev pub MaySee : World → Share → Option User → Type 0
MaySee w s user =
    (r : ReverseShare)
    → reverse_share_of w s ≡ some r
    → (r.public_access ≡ true) ⊎ (IsUser user s.creator_id ⊎ IsUser user (some r.creator_id))

-- What the guard asks of a request for the share `s`, with the user that the JWT guard finds.
pub record IsAdmitted (env : Env) (req : Request) (w : World) (id : String) (user : Option User)
    : Type 0 where
  pub share : Share
  pub token : String
  pub found : find_share w id ≡ some share
  pub live : is_expired env share ≡ false
  pub presented : req.cookies (token_cookie id) ≡ some token
  pub issued : IsIssuedFor env share token
  pub may_see : MaySee w share user

may_see_sound :
    (s : Share) (o : Option ReverseShare) (user : Option User) (r : ReverseShare)
    → is_private_to_others s o user ≡ false
    → o ≡ some r
    → (r.public_access ≡ true) ⊎ (IsUser user s.creator_id ⊎ IsUser user (some r.creator_id))
unfolding is_private_to_others
may_see_sound s o user r h e = elim (Bool-cases r.public_access) [
  | inl public ↦ inl public
  | inr private ↦ elim (Bool-cases (same s.creator_id (id_of user))) [
    | inl creator ↦ inr (inl (same_sound s.creator_id (id_of user) creator))
    | inr stranger ↦
        let owner : same (some r.creator_id) (id_of user) ≡ true = ground arith in
        inr (inr (same_sound (some r.creator_id) (id_of user) owner))
  ]
]

-- A request that the guard admits is for a share that exists and has not expired, carries a token
-- issued for that share, and comes from a user who may see it.
pub share_security_guard-IsAdmitted :
    (env : Env) (req : Request) (w : World) (id : String) (a : Activation)
    → (share_security_guard env req id w).0 ≡ ok a
    → IsAdmitted env req w id a.user
unfolding share_security_guard live_share
share_security_guard-IsAdmitted env req w id a h = elim (Option-cases (find_share w id)) [
  | inl missing ↦ absurd (ground arith)
  | inr (s, found) ↦ elim (Bool-cases (is_expired env s)) [
    | inl expired ↦ absurd (ground arith)
    | inr live ↦ elim (Option-cases (req.cookies (token_cookie id))) [
      | inl absent ↦ absurd (ground (arith, verify_share_token-none env w id s found))
      | inr (token, presented) ↦ elim (verify_share_token_cases env w id (some token) s found) [
        | inr refused ↦ absurd (ground arith)
        | inl accepted ↦ record {
          share = s;
          token = token;
          found = found;
          live = live;
          presented = presented;
          issued = (verify_share_token_iff env w id token s found).0 accepted;
          may_see = λ r e.
              let hidden : is_private_to_others s (reverse_share_of w s) a.user ≡ false =
                ground arith in
              may_see_sound s (reverse_share_of w s) a.user r hidden e;
        }
      ]
    ]
  ]
]
