-- ===== src/Services/Workspace.antt =====
-- The requests of `OrganizationService` (organization.go), one definition for each method.
use warmbly_go.Common.{List, [], Option, none, some, ◌∷◌}
use warmbly_go.Common.Text.{Bytes}
use warmbly_go.Services.Call.{
  Call, post, delete, lit, esc, text, bodiless, given, object, discarded, in_key, at, with_query,
  call, fetch, fetch_data, send, field, omit_empty, or_empty, encoded,
}
use warmbly_go.Services.Query.{Format}
use warmbly_go.Services.Arguments.{Arguments}
use warmbly_go.Services.Bodies.Organization.{
  LimitRequestParams, ScheduleDeletionParams, limit_request_params_fields,
  schedule_deletion_params_fields,
}

abbrev pub preview_invitation : Bytes → Call
preview_invitation token =
    fetch (with_query (lit "invitations/lookup" ∷ []) (("token", token ∷ []) ∷ []))

abbrev pub accept_invitation : Bytes → Call
accept_invitation token =
    call post (at (lit "invitations/accept" ∷ [])) (object (field "token" (text token)))
      (in_key "member")

abbrev pub limit_requests : Bytes → Call
limit_requests org_id =
    fetch_data (at (lit "organization/" ∷ esc org_id ∷ lit "/limit-requests" ∷ []))

abbrev pub request_limit_increase : Bytes → Option LimitRequestParams → Call
request_limit_increase org_id params =
    send post (at (lit "organization/" ∷ esc org_id ∷ lit "/limit-requests" ∷ []))
      (encoded limit_request_params_fields params)

abbrev pub cancel_limit_request : Bytes → Call
cancel_limit_request id = call delete (at (lit "limit-requests/" ∷ esc id ∷ [])) bodiless discarded

abbrev pub risk : Call
risk = fetch (at (lit "organization/current/risk" ∷ []))

abbrev pub transfer_groups : Call
transfer_groups = fetch (at (lit "organization/current/transfer/groups" ∷ []))

abbrev pub create_export : Option Bytes → Call
create_export params =
    send post (at (lit "organization/current/export" ∷ [])) (given (some (or_empty params)))

abbrev pub exports : Call
exports = fetch_data (at (lit "organization/current/export" ∷ []))

abbrev pub export : Bytes → Call
export id = fetch (at (lit "organization/current/export/" ∷ esc id ∷ []))

abbrev pub delete_export : Bytes → Call
delete_export id =
    call delete (at (lit "organization/current/export/" ∷ esc id ∷ [])) bodiless discarded

abbrev pub imports : Call
imports = fetch_data (at (lit "organization/current/import" ∷ []))

abbrev pub import : Bytes → Call
import id = fetch (at (lit "organization/current/import/" ∷ esc id ∷ []))

abbrev pub danger_zone : Call
danger_zone = fetch (at (lit "organization/current/danger-zone" ∷ []))

abbrev pub schedule_deletion : Option ScheduleDeletionParams → Call
schedule_deletion params =
    send post (at (lit "organization/current/danger-zone/delete" ∷ []))
      (encoded schedule_deletion_params_fields params)

abbrev pub cancel_deletion : Bytes → Call
cancel_deletion reason =
    call delete (at (lit "organization/current/danger-zone/delete" ∷ []))
      (object (omit_empty "reason" (text reason))) discarded

-- The calls of the methods above, at any arguments; a body that is a parameters object is left nil.
abbrev pub calls : {T : Type 0} → Format T → Arguments T → List Call
calls format a =
    (preview_invitation a.x)
    ∷ (accept_invitation a.x)
    ∷ (limit_requests a.x)
    ∷ (request_limit_increase a.x none)
    ∷ (cancel_limit_request a.x)
    ∷ (risk)
    ∷ (transfer_groups)
    ∷ (create_export a.payload)
    ∷ (exports)
    ∷ (export a.x)
    ∷ (delete_export a.x)
    ∷ (imports)
    ∷ (import a.x)
    ∷ (danger_zone)
    ∷ (schedule_deletion none)
    ∷ (cancel_deletion a.x)
    ∷ []
