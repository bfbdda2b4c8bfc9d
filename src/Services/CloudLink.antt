-- ===== src/Services/CloudLink.antt =====
-- The requests of `CloudLinkService` (cloudlink.go), one definition for each method.
use warmbly_go.Common.{List, [], ◌∷◌}
use warmbly_go.Common.Text.{Bytes, String}
use warmbly_go.Services.Call.{
  Call, post, delete, lit, esc, text, bodiless, object, discarded, at, call, fetch, fetch_data,
  send, field, omit_empty,
}
use warmbly_go.Services.Query.{Format}
use warmbly_go.Services.Arguments.{Arguments}

abbrev pub lifecycle : Bytes → String → Call
lifecycle id action =
    send post (at (lit "cloud-link/mailboxes/" ∷ esc id ∷ lit "/" ∷ lit action ∷ [])) bodiless

abbrev pub status : Call
status = fetch (at (lit "cloud-link" ∷ []))

abbrev pub connect : Bytes → Call
connect cloud_url =
    send post (at (lit "cloud-link/connect" ∷ []))
      (object (omit_empty "cloud_url" (text cloud_url)))

abbrev pub poll_connect : Call
poll_connect = send post (at (lit "cloud-link/connect/poll" ∷ [])) bodiless

abbrev pub disconnect : Call
disconnect = call delete (at (lit "cloud-link" ∷ [])) bodiless discarded

abbrev pub list_mailboxes : Call
list_mailboxes = fetch_data (at (lit "cloud-link/mailboxes" ∷ []))

abbrev pub enroll_mailbox : Bytes → Call
enroll_mailbox id =
    send post (at (lit "cloud-link/mailboxes/" ∷ esc id ∷ lit "/enroll" ∷ [])) bodiless

abbrev pub unenroll_mailbox : Bytes → Call
unenroll_mailbox id =
    call delete (at (lit "cloud-link/mailboxes/" ∷ esc id ∷ lit "/enroll" ∷ [])) bodiless discarded

abbrev pub pause_mailbox : Bytes → Call
pause_mailbox id = lifecycle id "pause"

abbrev pub resume_mailbox : Bytes → Call
resume_mailbox id = lifecycle id "resume"

abbrev pub start_oauth : Bytes → Call
start_oauth provider =
    send post (at (lit "cloud-link/oauth/start" ∷ [])) (object (field "provider" (text provider)))

abbrev pub finish_oauth : Bytes → Call
finish_oauth session =
    send post (at (lit "cloud-link/oauth/finish" ∷ [])) (object (field "session" (text session)))

abbrev pub list_workspace_mailboxes : Call
list_workspace_mailboxes = fetch_data (at (lit "cloud-link/workspace-mailboxes" ∷ []))

abbrev pub adopt_workspace_mailbox : Bytes → Call
adopt_workspace_mailbox id =
    send post (at (lit "cloud-link/workspace-mailboxes/" ∷ esc id ∷ lit "/adopt" ∷ [])) bodiless

-- The calls of the methods above, at any arguments; a body that is a parameters object is left nil.
abbrev pub calls : {T : Type 0} → Format T → Arguments T → List Call
calls format a =
    (status)
    ∷ (connect a.x)
    ∷ (poll_connect)
    ∷ (disconnect)
    ∷ (list_mailboxes)
    ∷ (enroll_mailbox a.x)
    ∷ (unenroll_mailbox a.x)
    ∷ (pause_mailbox a.x)
    ∷ (resume_mailbox a.x)
    ∷ (start_oauth a.x)
    ∷ (finish_oauth a.x)
    ∷ (list_workspace_mailboxes)
    ∷ (adopt_workspace_mailbox a.x)
    ∷ []
