-- ===== src/Guard/Upload/Rights.antt =====
-- Which requests may upload, and with which rights.
use i_transfer.Base.{
  ◌≡◌, refl, sym, ◌∙◌, ◌⊎◌, inl, inr, String, true, false, ◌||◌, Bool-cases, Option-cases, Option,
  none, some, arith, same, same_eq,
}
use mathlib.Core.Path.{subst}
use i_transfer.Env.{Env}
use i_transfer.Guard.Jwt.{Request, Activation, jwt_guard}
use i_transfer.Guard.Owner.{owner_cookie}
use i_transfer.Guard.Security.{token_cookie}
use i_transfer.Guard.Upload.{
  UploadRights, rights, has_owner_token, is_share_owner, public_upload, after_jwt,
  file_upload_guard,
}
use i_transfer.Share.Expiration.{is_expired}
use i_transfer.Share.Token.{verify_anonymous_owner_token, names_share}
use i_transfer.Guard.Jwt.Frame.{find_share-jwt_guard}
use i_transfer.Share.Token.Issued.{
  IsIssuedFor, verify_share_token_iff, verify_share_token-none, verify_share_token_cases,
}
use i_transfer.World.{World, User, Share, Outcome, ok, throws, find_share, find_share-id}

-- The request comes from an administrator, the share's creator, or the holder of the token of an
-- anonymous creator.
pub data IsOwnerOf (env : Env) (req : Request) (s : Share) : Option User → Type 0 where
  admin : (u : User) → u.is_admin ≡ true → IsOwnerOf env req s (some u)
  creator : (u : User) → s.creator_id ≡ some u.id → IsOwnerOf env req s (some u)
  anonymous :
      {user : Option User}
      → s.creator_id ≡ none
      → verify_anonymous_owner_token env s (req.cookies (owner_cookie s.id)) ≡ true
      → IsOwnerOf env req s user

-- The guard's own test of the token is that of the share owner guard.
pub has_owner_token-verify_anonymous_owner_token :
    (env : Env) (req : Request) (s : Share)
    → has_owner_token env req s
      ≡ verify_anonymous_owner_token env s (req.cookies (owner_cookie s.id))
unfolding has_owner_token verify_anonymous_owner_token names_share
has_owner_token-verify_anonymous_owner_token env req s = refl

pub is_share_owner_sound :
    (env : Env) (req : Request) (s : Share) (user : Option User)
    → is_share_owner env req s user ≡ true
    → IsOwnerOf env req s user
unfolding is_share_owner
is_share_owner_sound env req s none h =
    anonymous (ground arith)
      (ground (arith, has_owner_token-verify_anonymous_owner_token env req s))
is_share_owner_sound env req s (some u) h = elim (Bool-cases u.is_admin) [
  | inl yes_admin ↦ admin u yes_admin
  | inr plain ↦ elim (Bool-cases (same s.creator_id (some u.id))) [
    | inl mine ↦ creator u (same_eq s.creator_id u.id mine)
    | inr other ↦
        anonymous (ground arith)
          (ground (arith, has_owner_token-verify_anonymous_owner_token env req s))
  ]
]

-- The conditions of an upload through the public link.
pub record IsPublicUpload (env : Env) (req : Request) (s : Share) : Type 0 where
  pub enabled : (s.allow_public_upload || s.allow_versioning) ≡ true
  pub live : is_expired env s ≡ false
  pub token : String
  pub presented : req.cookies (token_cookie s.id) ≡ some token
  pub issued : IsIssuedFor env s token

public_upload_sound :
    (env : Env) (req : Request) (w : World) (s : Share) (r : UploadRights)
    → find_share w s.id ≡ some s
    → (public_upload env req s s.id w).0 ≡ ok r
    → (r ≡ rights s false) × IsPublicUpload env req s
unfolding public_upload
public_upload_sound env req w s r found h = elim (Option-cases (req.cookies (token_cookie s.id))) [
  | inl absent ↦ absurd (ground (arith, verify_share_token-none env w s.id s found))
  | inr (token, presented) ↦ elim (verify_share_token_cases env w s.id (some token) s found) [
    | inr refused ↦ absurd (ground arith)
    | inl accepted ↦ (
      ground arith,
      record {
        enabled = ground arith;
        live = ground arith;
        token = token;
        presented = presented;
        issued = (verify_share_token_iff env w s.id token s found).0 accepted;
      },
    )
  ]
]

-- As whom the JWT guard, with this outcome, lets the request pass, that user is the share's owner.
abbrev pub AsOwner : Env → Request → Outcome Activation → Share → UploadRights → Type 0
AsOwner env req o s r =
    (r ≡ rights s true) × ((a : Activation) × (o ≡ ok a) × IsOwnerOf env req s a.user)

abbrev pub AsVisitor : Env → Request → Share → UploadRights → Type 0
AsVisitor env req s r = (r ≡ rights s false) × IsPublicUpload env req s

after_jwt_sound :
    (env : Env) (req : Request) (s : Share) (o : Outcome Activation) (w : World) (r : UploadRights)
    → find_share w s.id ≡ some s
    → (after_jwt env req s s.id o w).0 ≡ ok r
    → AsOwner env req o s r ⊎ AsVisitor env req s r
unfolding after_jwt
after_jwt_sound env req s (throws e) w r found h = inr (public_upload_sound env req w s r found h)
after_jwt_sound env req s (ok activation) w r found h =
    elim (Bool-cases (is_share_owner env req s activation.user)) [
      | inl owner ↦
          inl
            (ground arith, (activation, refl, is_share_owner_sound env req s activation.user owner))
      | inr visitor ↦ inr (public_upload_sound env req w s r found (ground arith))
    ]

-- An upload is let through only for a share that exists, and either as its owner's or, if the share
-- takes uploads, has not expired and the request carries a token issued for it, as a visitor's. The
-- flags that it gets are the share's.
pub file_upload_guard_sound :
    (env : Env) (req : Request) (w : World) (id : String) (r : UploadRights)
    → (file_upload_guard env req id w).0 ≡ ok r
    → (s : Share) × (find_share w id ≡ some s)
      × (AsOwner env req (jwt_guard env req w).0 s r ⊎ AsVisitor env req s r)
unfolding file_upload_guard
file_upload_guard_sound env req w id r h = elim (Option-cases (find_share w id)) [
  | inl missing ↦ absurd (ground arith)
  | inr (s, found) ↦
      let (o, w') = jwt_guard env req w in
      let same_id : s.id ≡ id = find_share-id w id s found in
      let after : (after_jwt env req s id o w').0 ≡ ok r = ground arith in
      let found' : find_share w' id ≡ some s = find_share-jwt_guard env req w id ∙ found in
      (
        s,
        found,
        after_jwt_sound env req s o w' r
            (subst (λ j. find_share w' j ≡ some s) (sym same_id) found')
            (subst (λ j. (after_jwt env req s j o w').0 ≡ ok r) (sym same_id) after),
      )
]
