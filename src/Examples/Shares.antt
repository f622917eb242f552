-- ===== src/Examples/Shares.antt =====
-- The theorems on shares and guards at concrete inputs.
use i_transfer.Base.{
  pos, [], ◌∷◌, true, false, not, if◌then◌else◌, ◌&&◌, ◌==◌, find?, ◌≡◌, refl, ◌↔◌, ◌⊎◌, inl, none,
  some, eqb, arith,
}
use i_transfer.Env.{Env, Timespan, days, unix, at_time, Honours}
use i_transfer.Examples.{env_signing, docs, inbox, world, visitor, alice, draft}
use i_transfer.Guard.Jwt.{Request, Activation, jwt_guard}
use i_transfer.Guard.Jwt.Users.{jwt_guard-active, jwt_guard-share_token}
use i_transfer.Guard.Security.{share_security_guard, direct_access}
use i_transfer.Guard.Security.Admission.{IsAdmitted, share_security_guard-IsAdmitted}
use i_transfer.Guard.Upload.{UploadRights, rights, file_upload_guard}
use i_transfer.Guard.Upload.Rights.{AsOwner, AsVisitor, file_upload_guard_sound}
use i_transfer.Guard.Owner.{is_owner, share_owner_guard}
use i_transfer.Guard.Upload.{is_share_owner}
use i_transfer.Guard.Upload.Rights.{IsOwnerOf}
use i_transfer.Guard.Upload.Owners.{is_owner-is_share_owner, share_owner_guard_sound}
use i_transfer.Share.Expiration.{
  RelativeDate, after, resolve_expiration_date, IsRequested, IsAllowed, resolve_expiration_date_iff,
}
use i_transfer.Share.Lifecycle.{CreateShare, create, complete, expiration_for, get_by_token}
use i_transfer.Share.Lifecycle.Completion.{Completion, complete_cases}
use i_transfer.Share.Lifecycle.Creation.{IsCreated, create-IsCreated}
use i_transfer.Share.Token.{
  share_claims, owner_claims, owner_token, lifetime, generate_share_token, verify_share_token,
  get_share_token, verify_anonymous_owner_token,
}
use i_transfer.Share.Token.Issued.{IsIssuedFor, verify_share_token_iff}
use i_transfer.Share.Token.RoundTrip.{
  verify_share_token-generate_share_token, verify_anonymous_owner_token-share_token,
  verify_anonymous_owner_token-owner_token,
}
use i_transfer.Share.Token.Views.{
  HasBoundedViews, get_share_token-HasBoundedViews, direct_access-HasBoundedViews,
}
use i_transfer.World.{Ends, World, Share, ok, throws, bad_request, not_found, find_share}

abbrev env : Env
env = env_signing (share_claims docs)

abbrev owner_env : Env
owner_env = env_signing (owner_claims docs)

-- The token of `docs` in place of an access token.
abbrev intruder : Request
intruder = record {
  authorization = none;
  cookies = λ name. if name == "access_token" then some "token" else none;
}

find_docs : find_share world "docs" ≡ some docs
unfolding find_share find?
find_docs = refl

find_inbox : find_share world "inbox" ≡ some inbox
unfolding find_share find?
find_inbox = refl

accepted : (file_upload_guard env visitor "docs" world).0 ≡ ok (rights docs false)
unfolding file_upload_guard find_share find? jwt_guard i_transfer.Guard.Jwt.extract_bearer_token
    i_transfer.Guard.Upload.is_share_owner i_transfer.Guard.Jwt.passport_user
    i_transfer.Share.Expiration.is_expired verify_share_token i_transfer.Share.Token.names_share
    share_claims
accepted = refl

admitted :
    (share_security_guard env visitor "docs" world).0 ≡ ok (record { allowed = true; user = none })
unfolding share_security_guard i_transfer.Guard.Security.live_share find_share find?
    i_transfer.Share.Expiration.is_expired i_transfer.Guard.Security.has_password verify_share_token
    i_transfer.Share.Token.names_share share_claims jwt_guard
    i_transfer.Guard.Jwt.extract_bearer_token i_transfer.Guard.Security.is_private_to_others
    i_transfer.World.reverse_share_of i_transfer.Guard.Jwt.passport_user
admitted = refl

signed_in : (jwt_guard env intruder world).0 ≡ ok (record { allowed = true; user = some alice })
unfolding jwt_guard i_transfer.Guard.Jwt.extract_bearer_token i_transfer.Guard.Jwt.passport_user
    i_transfer.Guard.Jwt.validate find? i_transfer.Guard.Jwt.is_active_with_id share_claims
signed_in = refl

signed : Honours env (share_claims docs) (unix env.now) (lifetime env docs)
unfolding lifetime
signed = λ t ignore. ground arith

signed_owner : Honours owner_env (owner_claims docs) (unix owner_env.now) (lifetime owner_env docs)
unfolding lifetime
signed_owner = λ t ignore. ground arith

handed_out : generate_share_token env "docs" world ≡ (ok "token", world)
unfolding generate_share_token find_share find?
handed_out = refl

alive : i_transfer.Env.is_alive (unix env.now) (lifetime env docs) (unix 20000) ≡ true
unfolding lifetime
alive = refl

bounded : HasBoundedViews world
unfolding i_transfer.Share.Token.is_views_exceeded
bounded = record { distinct = ((refl, tt), (tt, tt)); within = (ground arith, (ground arith, tt)) }

first_user : find? (λ x. not x.is_disabled) world.users ≡ some alice
unfolding find?
first_user = refl

abbrev create_answer : Share
create_answer = i_transfer.Share.Lifecycle.new_share env draft none 10002

created :
    create env draft none none world ≡ (ok (create_answer), (create env draft none none world).1)
unfolding create find_share find? resolve_expiration_date
created = refl

file_upload_guard_sound_example :
    (s : Share) × (find_share world "docs" ≡ some s)
    × (AsOwner env visitor (jwt_guard env visitor world).0 s (rights docs false)
        ⊎ AsVisitor env visitor s (rights docs false))
file_upload_guard_sound_example =
    file_upload_guard_sound env visitor world "docs" (rights docs false) accepted

share_security_guard-IsAdmitted_example : IsAdmitted env visitor world "docs" none
share_security_guard-IsAdmitted_example =
    share_security_guard-IsAdmitted env visitor world "docs"
      (record { allowed = true; user = none }) admitted

verify_share_token_iff_example :
    (verify_share_token env "docs" (some "token") world ≡ (ok true, world))
    ↔ IsIssuedFor env docs "token"
verify_share_token_iff_example = verify_share_token_iff env world "docs" "token" docs find_docs

verify_share_token-generate_share_token_example :
    verify_share_token (at_time 20000 env) "docs" (some "token") world
    ≡ (ok (eqb (unix docs.created_at) (unix docs.created_at)), world)
verify_share_token-generate_share_token_example =
    verify_share_token-generate_share_token env world world "docs" "token" docs docs 20000 signed
      find_docs handed_out find_docs (inl refl)

complete_cases_example : Completion env "inbox" none world inbox
complete_cases_example = complete_cases env "inbox" none world inbox find_inbox

get_share_token-HasBoundedViews_example : HasBoundedViews (get_share_token env "docs" none world).1
get_share_token-HasBoundedViews_example =
    get_share_token-HasBoundedViews env world "docs" none bounded

direct_access-HasBoundedViews_example : HasBoundedViews (direct_access env "docs" world).1
direct_access-HasBoundedViews_example = direct_access-HasBoundedViews env world "docs" bounded

verify_anonymous_owner_token-share_token_example :
    verify_anonymous_owner_token
      (at_time 20000 env)
      docs
      (some (env.sign (share_claims docs) (unix env.now) (lifetime env docs)))
    ≡ false
verify_anonymous_owner_token-share_token_example =
    verify_anonymous_owner_token-share_token env docs docs 20000 signed

verify_anonymous_owner_token-owner_token_example :
    verify_anonymous_owner_token (at_time 20000 owner_env) docs (some (owner_token owner_env docs))
    ≡ ((docs.id == docs.id) && eqb (unix docs.created_at) (unix docs.created_at))
unfolding owner_token
verify_anonymous_owner_token-owner_token_example =
    verify_anonymous_owner_token-owner_token owner_env docs docs 20000 signed_owner refl (inl refl)

jwt_guard-active_example : alice.is_disabled ≡ false
jwt_guard-active_example =
    jwt_guard-active env intruder world (record { allowed = true; user = some alice }) alice
      signed_in refl

jwt_guard-share_token_example :
    jwt_guard (at_time 20000 env) intruder world
    ≡ (ok (record { allowed = true; user = some alice }), world)
jwt_guard-share_token_example =
    jwt_guard-share_token env intruder world docs 20000 alice signed refl alive refl refl first_user

resolve_expiration_date_iff_example :
    (resolve_expiration_date env (some (after (record { value = 2; unit = days }))) ≡ ok 10002) ↔ (
      IsRequested env (some (after (record { value = 2; unit = days }))) 10002
      × IsAllowed env 10002)
resolve_expiration_date_iff_example =
    resolve_expiration_date_iff env (some (after (record { value = 2; unit = days }))) 10002

-- A reverse share, and a request that carries its token.
abbrev with_reverse_share : World
with_reverse_share = record world {
  reverse_shares =
      record {
        id = "r";
        token = "secret";
        share_expiration = 5000;
        max_share_size = 10;
        send_email_notification = false;
        remaining_uses = pos 1;
        simplified = false;
        public_access = true;
        creator_id = "alice";
      }
      ∷ [];
}

create-IsCreated_example :
    Ends
      (IsCreated env draft none (some "secret") with_reverse_share)
      (λ w'. w' ≡ with_reverse_share)
      (create env draft none (some "secret") with_reverse_share)
create-IsCreated_example = create-IsCreated env draft none (some "secret") with_reverse_share

owned :
    (share_owner_guard env intruder "docs" world).0
    ≡ ok (record { allowed = true; user = some alice })
unfolding share_owner_guard find_share find? jwt_guard i_transfer.Guard.Jwt.extract_bearer_token
    is_owner i_transfer.Guard.Jwt.passport_user i_transfer.Guard.Jwt.validate
    i_transfer.Guard.Jwt.is_active_with_id share_claims
owned = refl

is_owner-is_share_owner_example :
    is_owner env intruder docs (some alice) ≡ is_share_owner env intruder docs (some alice)
is_owner-is_share_owner_example = is_owner-is_share_owner env intruder docs (some alice)

share_owner_guard_sound_example :
    (s : Share) × (find_share world "docs" ≡ some s) × IsOwnerOf env intruder s (some alice)
share_owner_guard_sound_example =
    share_owner_guard_sound env intruder world "docs" (record { allowed = true; user = some alice })
      owned refl
