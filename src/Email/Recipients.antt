-- ===== src/Email/Recipients.antt =====
-- The mails to the recipients of a share.
use mathlib.Core.List.{append-nil, append_assoc}
use i_transfer.Base.{◌≡◌, refl, String, Bool-cases, inl, inr, List, [], ◌∷◌, ◌++◌, map}
use i_transfer.Email.{
  send_mail, send_mail_to_share_recipients, send_to_all, send_mail_to_reverse_share_creator,
}
use i_transfer.Env.{Env}
use i_transfer.World.{
  World, Mail, to_recipient, to_reverse_share_creator, Outcome, ok, throws, App, resume,
}

-- An action that either sends these mails, in this order, or throws; nothing else changes.
abbrev pub Sends : List Mail → Outcome (Unit {0}) × World → World → Type 0
Sends mails (ok _, w') w = w' ≡ record w { outbox = w.outbox ++ mails }
Sends mails (throws e, w') w = w' ≡ record w { outbox = w'.outbox }

send_mail-Sends : (env : Env) (mail : Mail) (w : World) → Sends (mail ∷ []) (send_mail env mail w) w
unfolding send_mail
send_mail-Sends env mail w = elim (Bool-cases env.settings.smtp_enabled) [
  | inr off ↦ rw off refl
  | inl on ↦ elim (Bool-cases (env.deliver mail)) [
    | inl taken ↦ rw (on, taken) refl
    | inr refused ↦ rw (on, refused) refl
  ]
]

pub send_mail_to_reverse_share_creator-Sends :
    (env : Env) (email id : String) (w : World)
    → Sends
        (to_reverse_share_creator email id ∷ [])
        (send_mail_to_reverse_share_creator env email id w)
        w
unfolding send_mail_to_reverse_share_creator
send_mail_to_reverse_share_creator-Sends env email id w =
    send_mail-Sends env (to_reverse_share_creator email id) w

send_mail_to_share_recipients-Sends :
    (env : Env) (email id : String) (w : World)
    → Sends (to_recipient email id ∷ []) (send_mail_to_share_recipients env email id w) w
unfolding send_mail_to_share_recipients
send_mail_to_share_recipients-Sends env email id w =
    elim (Bool-cases env.settings.share_email_recipients_enabled) [
      | inl on ↦ rw on (send_mail-Sends env (to_recipient email id) w)
      | inr off ↦ rw off refl
    ]

Sends-append :
    (ms ns : List Mail) (r : Outcome (Unit {0}) × World) (w : World)
    → Sends ns r (record w { outbox = w.outbox ++ ms })
    → Sends (ms ++ ns) r w
Sends-append ms ns (ok _, w') w h = rw (← append_assoc) h
Sends-append ms ns (throws e, w') w h = h

-- One action after another sends the mails of both.
pub Sends-then :
    (ms ns : List Mail) (r : Outcome (Unit {0}) × World) (k : App (Unit {0})) (w : World)
    → Sends ms r w
    → Sends ns (k (record w { outbox = w.outbox ++ ms })) (record w { outbox = w.outbox ++ ms })
    → Sends (ms ++ ns) (resume r (λ _. k)) w
Sends-then ms ns (ok _, w') k w h rest =
    rw h (Sends-append ms ns (k (record w { outbox = w.outbox ++ ms })) w rest)
Sends-then ms ns (throws e, w') k w h rest = h

pub send_to_all-Sends :
    (env : Env) (id : String) (emails : List String) (w : World)
    → Sends (map (λ email. to_recipient email id) emails) (send_to_all env id emails w) w
unfolding send_to_all
send_to_all-Sends env id [] w = rw append-nil refl
send_to_all-Sends env id (email ∷ emails) w =
    Sends-then (to_recipient email id ∷ []) (map (λ email. to_recipient email id) emails)
      (send_mail_to_share_recipients env email id w) (send_to_all env id emails) w
      (send_mail_to_share_recipients-Sends env email id w) (send_to_all-Sends env id emails _)
