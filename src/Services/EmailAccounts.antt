-- ===== src/Services/EmailAccounts.antt =====
-- The requests of `EmailService` (emails.go), one definition for each method.
use warmbly_go.Common.{List, [], Option, none, ◌∷◌, ◌++◌}
use warmbly_go.Common.Text.{Bytes, String}
use warmbly_go.Services.Call.{
  Call, post, put, lit, esc, text, bodiless, object, at, fetch, send, field, encoded,
}
use warmbly_go.Services.Query.{Format}
use warmbly_go.Services.Arguments.{Arguments}
use warmbly_go.Services.Bodies.Emails.{
  SmtpImapBulkParams, SmtpImapCredentialsParams, SmtpImapParams, SendEmailParams,
  WarmupAppealParams, smtp_imap_bulk_params_fields, smtp_imap_credentials_params_fields,
  smtp_imap_params_fields, send_email_params_fields, warmup_appeal_params_fields,
}

abbrev pub warmup_lifecycle : Bytes → String → Call
warmup_lifecycle id action =
    send post (at (lit "emails/" ∷ esc id ∷ lit "/warmup/" ∷ lit action ∷ [])) bodiless

abbrev pub release : Bytes → Call
release id = send post (at (lit "emails/" ∷ esc id ∷ lit "/release" ∷ [])) bodiless

abbrev pub verify : Bytes → Call
verify email = send post (at (lit "emails/verify" ∷ [])) (object (field "email" (text email)))

abbrev pub send_call : Bytes → Option SendEmailParams → Call
send_call id params =
    send post (at (lit "emails/" ∷ esc id ∷ lit "/send" ∷ []))
      (encoded send_email_params_fields params)

abbrev pub start_warmup : Bytes → Call
start_warmup id = warmup_lifecycle id "start"

abbrev pub pause_warmup : Bytes → Call
pause_warmup id = warmup_lifecycle id "pause"

abbrev pub resume_warmup : Bytes → Call
resume_warmup id = warmup_lifecycle id "resume"

abbrev pub stop_warmup : Bytes → Call
stop_warmup id = warmup_lifecycle id "stop"

abbrev pub warmup_ban_status : Bytes → Call
warmup_ban_status id = fetch (at (lit "emails/" ∷ esc id ∷ lit "/warmup/ban-status" ∷ []))

abbrev pub appeal_warmup_ban : Bytes → Option WarmupAppealParams → Call
appeal_warmup_ban id params =
    send post (at (lit "emails/" ∷ esc id ∷ lit "/warmup/appeal" ∷ []))
      (encoded warmup_appeal_params_fields params)

abbrev pub start_oauth : Bytes → Call
start_oauth provider =
    send post (at (lit "emails/onboarding/oauth/start" ∷ []))
      (object (field "provider" (text provider)))

abbrev pub finish_oauth : Bytes → Bytes → Call
finish_oauth code state =
    send post (at (lit "emails/onboarding/oauth/finish" ∷ []))
      (object (field "code" (text code) ++ field "state" (text state)))

abbrev pub reauth_oauth : Bytes → Call
reauth_oauth id = send post (at (lit "emails/onboarding/oauth/reauth/" ∷ esc id ∷ [])) bodiless

abbrev pub connect_smtpimap : Option SmtpImapParams → Call
connect_smtpimap params =
    send post (at (lit "emails/onboarding/smtp-imap" ∷ [])) (encoded smtp_imap_params_fields params)

abbrev pub connect_smtpimap_bulk : Option SmtpImapBulkParams → Call
connect_smtpimap_bulk params =
    send post (at (lit "emails/onboarding/smtp-imap/bulk" ∷ []))
      (encoded smtp_imap_bulk_params_fields params)

abbrev pub update_smtpimap_credentials : Bytes → Option SmtpImapCredentialsParams → Call
update_smtpimap_credentials id params =
    send put (at (lit "emails/onboarding/smtp-imap/" ∷ esc id ∷ []))
      (encoded smtp_imap_credentials_params_fields params)

-- The calls of the methods above, at any arguments; a body that is a parameters object is left nil.
abbrev pub calls : {T : Type 0} → Format T → Arguments T → List Call
calls format a =
    (release a.x)
    ∷ (verify a.x)
    ∷ (send_call a.x none)
    ∷ (start_warmup a.x)
    ∷ (pause_warmup a.x)
    ∷ (resume_warmup a.x)
    ∷ (stop_warmup a.x)
    ∷ (warmup_ban_status a.x)
    ∷ (appeal_warmup_ban a.x none)
    ∷ (start_oauth a.x)
    ∷ (finish_oauth a.x a.y)
    ∷ (reauth_oauth a.x)
    ∷ (connect_smtpimap none)
    ∷ (connect_smtpimap_bulk none)
    ∷ (update_smtpimap_credentials a.x none)
    ∷ []
