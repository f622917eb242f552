-- ===== src/Email.antt =====
-- backend/src/email/email.service.ts: a mail is sent if mailing is on and the server takes it. The
-- texts of the mails are not modelled.
pub mod Recipients
use i_transfer.Base.{String, not, List, [], ◌∷◌, ◌++◌}
use i_transfer.Env.{Env}
use i_transfer.World.{
  Mail, to_recipient, to_reverse_share_creator, reset_password, App, internal_server_error, pure,
  modify, throw_if, ◌>>◌,
}

module _ (env : Env) where
  pub send_mail : Mail → App (Unit {0})
  send_mail mail = do
    throw_if (not env.settings.smtp_enabled) (internal_server_error "SMTP is disabled")
    throw_if (not (env.deliver mail)) (internal_server_error "Failed to send email")
    modify (λ w. record w { outbox = w.outbox ++ mail ∷ [] })

  pub send_mail_to_share_recipients : (email share_id : String) → App (Unit {0})
  unfolding send_mail
  send_mail_to_share_recipients email share_id = do
    throw_if (not env.settings.share_email_recipients_enabled)
        (internal_server_error "Email service disabled")
    send_mail (to_recipient email share_id)

  pub send_mail_to_reverse_share_creator : (email share_id : String) → App (Unit {0})
  unfolding send_mail
  send_mail_to_reverse_share_creator email share_id =
      send_mail (to_reverse_share_creator email share_id)

  unfoldable pub send_reset_password_email : (email token : String) → App (Unit {0})
  unfolding send_mail
  send_reset_password_email email token = send_mail (reset_password email token)

  -- `for (const recipient of share.recipients) await …`
  pub send_to_all : String → List String → App (Unit {0})
  unfolding send_mail_to_share_recipients
  send_to_all share_id [] = pure tt
  send_to_all share_id (email ∷ emails) =
      let rest = send_to_all share_id emails in send_mail_to_share_recipients email share_id >> rest
