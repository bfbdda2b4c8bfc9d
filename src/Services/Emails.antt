-- ===== src/Services/Emails.antt =====
-- The requests of `EmailService` (emails.go), one definition for each method.
use warmbly_go.Common.{List, [], Option, none, ◌∷◌}
use warmbly_go.Common.Text.{Bytes}
use warmbly_go.Services.Call.{
  Call, post, patch, put, delete, lit, esc, bodiless, discarded, at, with_query, call, fetch, send,
  list_json, encoded,
}
use warmbly_go.Services.Query.{Format}
use warmbly_go.Services.Arguments.{Arguments}
use warmbly_go.Services.Bodies.Emails.{
  BulkTagParams, EmailUpdateParams, SendingBehaviorUpdateParams, bulk_tag_params_fields,
  email_update_params_fields, sending_behavior_update_params_fields,
}
use warmbly_go.Services.Params.{EmailListParams, email_list_params_values}

abbrev pub list : {T : Type 0} → Format T → Option EmailListParams → Call
list format params = list_json (lit "emails" ∷ []) (email_list_params_values format params)

abbrev pub get_call : Bytes → Call
get_call id = fetch (at (lit "emails/" ∷ esc id ∷ []))

abbrev pub update : Bytes → Option EmailUpdateParams → Call
update id params =
    send patch (at (lit "emails/" ∷ esc id ∷ [])) (encoded email_update_params_fields params)

abbrev pub delete_call : Bytes → Call
delete_call id = call delete (at (lit "emails/" ∷ esc id ∷ [])) bodiless discarded

abbrev pub bulk_tag : Option BulkTagParams → Call
bulk_tag params = send patch (at (lit "emails/tags" ∷ [])) (encoded bulk_tag_params_fields params)

abbrev pub allowance : Call
allowance = fetch (at (lit "emails/allowance" ∷ []))

abbrev pub get_tracking_domain : Bytes → Call
get_tracking_domain id = fetch (at (lit "emails/" ∷ esc id ∷ lit "/track" ∷ []))

abbrev pub update_tracking_domain : Bytes → Bytes → Call
update_tracking_domain id domain =
    send patch
      (with_query (lit "emails/" ∷ esc id ∷ lit "/track" ∷ []) (("domain", domain ∷ []) ∷ []))
      bodiless

abbrev pub verify_tracking_domain : Bytes → Call
verify_tracking_domain id =
    send post (at (lit "emails/" ∷ esc id ∷ lit "/track/verify" ∷ [])) bodiless

abbrev pub auth_check : Bytes → Call
auth_check id = fetch (at (lit "emails/" ∷ esc id ∷ lit "/auth-check" ∷ []))

abbrev pub refresh_auth_check : Bytes → Call
refresh_auth_check id = send post (at (lit "emails/" ∷ esc id ∷ lit "/auth-check" ∷ [])) bodiless

abbrev pub sync_status : Bytes → Call
sync_status id = fetch (at (lit "emails/" ∷ esc id ∷ lit "/sync" ∷ []))

abbrev pub behavior : Bytes → Call
behavior id = fetch (at (lit "emails/" ∷ esc id ∷ lit "/behavior" ∷ []))

abbrev pub update_behavior : Bytes → Option SendingBehaviorUpdateParams → Call
update_behavior id params =
    send put (at (lit "emails/" ∷ esc id ∷ lit "/behavior" ∷ []))
      (encoded sending_behavior_update_params_fields params)

abbrev pub behavior_plan : Bytes → Call
behavior_plan id = fetch (at (lit "emails/" ∷ esc id ∷ lit "/behavior/plan" ∷ []))

abbrev pub hold : Bytes → Call
hold id = send post (at (lit "emails/" ∷ esc id ∷ lit "/hold" ∷ [])) bodiless

-- The calls of the methods above, at any arguments; a body that is a parameters object is left nil.
abbrev pub calls : {T : Type 0} → Format T → Arguments T → List Call
calls format a =
    (list format a.email_list_params)
    ∷ (get_call a.x)
    ∷ (update a.x none)
    ∷ (delete_call a.x)
    ∷ (bulk_tag none)
    ∷ (allowance)
    ∷ (get_tracking_domain a.x)
    ∷ (update_tracking_domain a.x a.y)
    ∷ (verify_tracking_domain a.x)
    ∷ (auth_check a.x)
    ∷ (refresh_auth_check a.x)
    ∷ (sync_status a.x)
    ∷ (behavior a.x)
    ∷ (update_behavior a.x none)
    ∷ (behavior_plan a.x)
    ∷ (hold a.x)
    ∷ []
