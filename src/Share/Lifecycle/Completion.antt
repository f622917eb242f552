-- ===== src/Share/Lifecycle/Completion.antt =====
-- What `complete` does, on success and on failure.
use mathlib.Core.List.{append-nil}
use i_transfer.Base.{
  ◌≡◌, refl, ap, String, Bool, true, false, not, ◌&&◌, Bool-cases, Option-cases, Option, none, some,
  List, [], ◌∷◌, ◌++◌, map, length, inl, inr, ◌⊎◌, arith, ◌==◌, ltb, eqb, update_where, decrement,
  if◌then◌else◌,
}
use i_transfer.Email.{send_to_all}
use i_transfer.Email.Recipients.{
  Sends, send_to_all-Sends, send_mail_to_reverse_share_creator-Sends, Sends-then,
}
use i_transfer.Env.{Env}
use i_transfer.Share.Lifecycle.{
  complete, announce, settle, notifies_creator, notify_creator, count_use,
}
use i_transfer.World.{
  World, Mail, bad_request, record_not_found, to_recipient, to_reverse_share_creator, Share,
  ReverseShare, Outcome, ok, throws, Exception, find_share, find_user, files_of, reverse_share_of,
  find_reverse_share, update_share-some, update_reverse_share, find_reverse_share_by_token, resume,
}

-- The mail to the creator of the reverse share, if mailing is on and the creator asked for it.
abbrev pub creator_mails : Env → String → World → Option ReverseShare → List Mail
creator_mails env id w none = []
creator_mails env id w (some r) =
    if env.settings.smtp_enabled && r.send_email_notification
    then elim (find_user w r.creator_id) [
      | none ↦ []
      | some creator ↦ to_reverse_share_creator creator.email id ∷ []
    ]
    else []

-- One use of the reverse share with the token of the request is counted, if the share came in
-- through a reverse share.
abbrev pub counted : Option ReverseShare → Option String → List ReverseShare → List ReverseShare
counted (some r) (some token) rows =
    update_where (λ r. r.token == token)
      (λ r. record r { remaining_uses = decrement r.remaining_uses }) rows
counted _ _ rows = rows

notify_creator-Sends :
    (env : Env) (r : Option ReverseShare) (id : String) (w : World)
    → Sends (creator_mails env id w r) (notify_creator env r id w) w
unfolding notify_creator notifies_creator
notify_creator-Sends env none id w = rw append-nil refl
notify_creator-Sends env (some r) id w =
    elim (Bool-cases (env.settings.smtp_enabled && r.send_email_notification)) [
      | inr off ↦ rw (off, append-nil) refl
      | inl on ↦ elim (Option-cases (find_user w r.creator_id)) [
        | inl missing ↦ rw (on, missing) refl
        | inr (u, found) ↦
            rw (on, found) (send_mail_to_reverse_share_creator-Sends env u.email id w)
      ]
    ]

count_use_cases :
    (r : Option ReverseShare) (token : Option String) (w : World)
    → (count_use r token w
        ≡ (ok tt, record w { reverse_shares = counted r token w.reverse_shares }))
      ⊎ ((e : Exception) × (count_use r token w ≡ (throws e, w)))
unfolding count_use update_reverse_share
count_use_cases none token w = inl refl
count_use_cases (some r) none w = inr (_, refl)
count_use_cases (some r) (some token) w =
    elim (Option-cases (find_reverse_share_by_token w token)) [
      | inl missing ↦ inr (record_not_found, ground arith)
      | inr (row, found) ↦ inl (ground arith)
    ]

-- All the mails of a completion, in order.
abbrev pub completion_mails : Env → String → World → Share → List Mail
completion_mails env id w s =
    map (λ email. to_recipient email id) s.recipients
    ++ creator_mails env id w (reverse_share_of w s)

announce-Sends :
    (env : Env) (id : String) (s : Share) (w : World)
    → Sends (completion_mails env id w s) (announce env id s w) w
unfolding announce reverse_share_of find_user find_reverse_share
announce-Sends env id s w =
    Sends-then (map (λ email. to_recipient email id) s.recipients)
      (creator_mails env id w (reverse_share_of w s)) (send_to_all env id s.recipients w)
      (λ w. notify_creator env (reverse_share_of w s) id w) w
      (send_to_all-Sends env id s.recipients w)
      (notify_creator-Sends env (reverse_share_of w s) id _)

pub locked : World → String → Share → Share
locked w id x = record x { upload_locked = true; is_zip_ready = ltb 1 (length (files_of w id)) }

settle_cases :
    (env : Env) (id : String) (token : Option String) (s : Share) (w w0 : World)
    → find_share w id ≡ some s
    → settle env id token s (files_of w0 id) w ≡ (
      ok (locked w0 id s, notifies_creator env (reverse_share_of w s)),
      record w {
        reverse_shares = counted (reverse_share_of w s) token w.reverse_shares;
        shares = update_where (λ x. x.id == id) (locked w0 id) w.shares;
      },
    )
      ⊎ ((e : Exception) × (settle env id token s (files_of w0 id) w ≡ (throws e, w)))
unfolding settle locked find_share
settle_cases env id token s w w0 found = elim (count_use_cases (reverse_share_of w s) token w) [
  | inl used ↦
      let w1 = record w {
        reverse_shares = counted (reverse_share_of w s) token w.reverse_shares;
      } in
      inl (rw used (rw (update_share-some w1 id (locked w0 id) {s = s} found) refl))
  | inr (e, refused) ↦ inr (e, ground arith)
]

-- The state after a completion.
abbrev pub completed : Env → String → Option String → World → Share → World
completed env id token w s = record w {
  outbox = w.outbox ++ completion_mails env id w s;
  reverse_shares = counted (reverse_share_of w s) token w.reverse_shares;
  shares = update_where (λ x. x.id == id) (locked w id) w.shares;
}

finish_cases :
    (env : Env) (id : String) (token : Option String) (s : Share) (w : World)
    (r : Outcome (Unit {0}) × World)
    → find_share w id ≡ some s
    → Sends (completion_mails env id w s) r w
    → ((n : Bool) × (resume r (λ _. settle env id token s (files_of w id))
          ≡ (ok (locked w id s, n), completed env id token w s)))
      ⊎ ((e : Exception) × (o : List Mail) × (resume r (λ _. settle env id token s (files_of w id))
            ≡ (throws e, record w { outbox = o })))
unfolding find_share reverse_share_of find_reverse_share
finish_cases env id token s w (throws e, w1) found sent =
    inr (e, w1.outbox, ap (λ (x : World). (throws e, x)) sent)
finish_cases env id token s w (ok _, w1) found sent =
    let w2 = record w { outbox = w.outbox ++ completion_mails env id w s } in
    elim (settle_cases env id token s w2 w found) [
      | inl closed ↦ inl (notifies_creator env (reverse_share_of w s), rw sent closed)
      | inr (e, refused) ↦ inr (e, w2.outbox, rw sent refused)
    ]

-- Whether a share can be completed: it is open, and has a file or takes public uploads.
abbrev pub is_ready : World → String → Share → Bool
is_ready w id s =
    not s.upload_locked && not (eqb (length (files_of w id)) 0 && not s.allow_public_upload)

-- The three ways in which `complete` can end.
pub data Completion (env : Env) (id : String) (token : Option String) (w : World) (s : Share)
    : Type 0 where
  refused :
      (e : Exception)
      → is_ready w id s ≡ false
      → complete env id token w ≡ (throws e, w)
      → Completion env id token w s
  failed :
      (e : Exception) (o : List Mail)
      → is_ready w id s ≡ true
      → complete env id token w ≡ (throws e, record w { outbox = o })
      → Completion env id token w s
  done :
      (n : Bool)
      → is_ready w id s ≡ true
      → complete env id token w ≡ (ok (locked w id s, n), completed env id token w s)
      → Completion env id token w s

-- A share that is not open, or has no file and takes no public uploads, is refused, and nothing
-- changes. Any other is completed (the recipients and, where asked to, the creator of the reverse
-- share are mailed, one use of the reverse share of the request is counted, the share is locked, and
-- nothing else changes), or the request throws and leaves nothing behind but mails.
pub complete_cases :
    (env : Env) (id : String) (token : Option String) (w : World) (s : Share)
    → find_share w id ≡ some s
    → Completion env id token w s
unfolding complete reverse_share_of locked
complete_cases env id token w s found = elim (Bool-cases s.upload_locked) [
  | inl closed ↦ refused (bad_request "Share already completed") (ground arith) (ground arith)
  | inr open_share ↦
      elim (Bool-cases (eqb (length (files_of w id)) 0 && not s.allow_public_upload)) [
        | inl empty ↦
            refused (bad_request "You need at least on file in your share to complete it.")
              (ground arith) (ground arith)
        | inr full ↦
            elim (finish_cases env id token s w (announce env id s w) found
              (announce-Sends env id s w)) [
                | inl (n, closed) ↦ done n (ground arith) (rw (found, open_share, full) closed)
                | inr (e, o, thrown) ↦
                    failed e o (ground arith) (rw (found, open_share, full) thrown)
              ]
      ]
]
