-- ===== src/Services/Campaigns.antt =====
-- The requests of `CampaignService` (campaigns.go), one definition for each method.
use warmbly_go.Common.{List, [], Option, none, ◌∷◌}
use warmbly_go.Common.Text.{Bytes}
use warmbly_go.Services.Call.{
  Call, post, patch, put, delete, lit, esc, json, bodiless, object, discarded, at, call, fetch,
  fetch_data, send, send_data, list_json, field, encoded,
}
use warmbly_go.Services.Query.{Format, ListOptions, apply}
use warmbly_go.Services.Arguments.{Arguments}
use warmbly_go.Services.Bodies.CampaignSteps.{
  TemplatePreviewParams, TestEmailParams, template_preview_params_fields, test_email_params_fields,
}
use warmbly_go.Services.Bodies.Campaigns.{
  CampaignCreateParams, CampaignDuplicateParams, CampaignEstimateParams, CampaignStartParams,
  CampaignUpdateParams, campaign_create_params_fields, campaign_duplicate_params_fields,
  campaign_estimate_params_fields, campaign_start_params_fields, campaign_update_params_fields,
}
use warmbly_go.Services.Params.{CampaignListParams, campaign_list_params_values}

abbrev pub start_with_options : Bytes → Option CampaignStartParams → Call
start_with_options id params =
    send post (at (lit "campaigns/" ∷ esc id ∷ lit "/start" ∷ []))
      (encoded campaign_start_params_fields params)

abbrev pub list : {T : Type 0} → Format T → Option CampaignListParams → Call
list format params = list_json (lit "campaigns" ∷ []) (campaign_list_params_values format params)

abbrev pub overview : Call
overview = fetch (at (lit "campaigns-overview" ∷ []))

abbrev pub estimate : Option CampaignEstimateParams → Call
estimate params =
    send post (at (lit "campaigns-estimate" ∷ [])) (encoded campaign_estimate_params_fields params)

abbrev pub create : Option CampaignCreateParams → Call
create params = send post (at (lit "campaigns" ∷ [])) (encoded campaign_create_params_fields params)

abbrev pub get_call : Bytes → Call
get_call id = fetch (at (lit "campaigns/" ∷ esc id ∷ []))

abbrev pub update : Bytes → Option CampaignUpdateParams → Call
update id params =
    send patch (at (lit "campaigns/" ∷ esc id ∷ [])) (encoded campaign_update_params_fields params)

abbrev pub delete_call : Bytes → Call
delete_call id = call delete (at (lit "campaigns/" ∷ esc id ∷ [])) bodiless discarded

abbrev pub duplicate : Bytes → Option CampaignDuplicateParams → Call
duplicate id params =
    send post (at (lit "campaigns/" ∷ esc id ∷ lit "/duplicate" ∷ []))
      (encoded campaign_duplicate_params_fields params)

abbrev pub start : Bytes → Call
start id = start_with_options id none

abbrev pub stop : Bytes → Call
stop id = send post (at (lit "campaigns/" ∷ esc id ∷ lit "/stop" ∷ [])) bodiless

abbrev pub logs : {T : Type 0} → Format T → Bytes → Option ListOptions → Call
logs format id params =
    list_json (lit "campaigns/" ∷ esc id ∷ lit "/logs" ∷ []) (apply format params [])

abbrev pub preflight : Bytes → Call
preflight id = send post (at (lit "campaigns/" ∷ esc id ∷ lit "/preflight" ∷ [])) bodiless

abbrev pub send_test_email : Bytes → Option TestEmailParams → Call
send_test_email id params =
    send post (at (lit "campaigns/" ∷ esc id ∷ lit "/test-email" ∷ []))
      (encoded test_email_params_fields params)

abbrev pub preview_template : Option TemplatePreviewParams → Call
preview_template params =
    send post (at (lit "campaign-template-preview" ∷ []))
      (encoded template_preview_params_fields params)

abbrev pub verify_tracking_domain : Bytes → Call
verify_tracking_domain id =
    send post (at (lit "campaigns/" ∷ esc id ∷ lit "/tracking-domain/verify" ∷ [])) bodiless

abbrev pub forms : Bytes → Call
forms id = fetch_data (at (lit "campaigns/" ∷ esc id ∷ lit "/forms" ∷ []))

abbrev pub senders : Bytes → Call
senders id = fetch_data (at (lit "campaigns/" ∷ esc id ∷ lit "/senders" ∷ []))

abbrev pub replace_senders : Bytes → Bytes → Call
replace_senders id senders =
    send_data put (at (lit "campaigns/" ∷ esc id ∷ lit "/senders" ∷ []))
      (object (field "senders" (json senders)))

abbrev pub list_segments : Bytes → Call
list_segments id = fetch_data (at (lit "campaigns/" ∷ esc id ∷ lit "/segments" ∷ []))

-- The calls of the methods above, at any arguments; a body that is a parameters object is left nil.
abbrev pub calls : {T : Type 0} → Format T → Arguments T → List Call
calls format a =
    (start_with_options a.x none)
    ∷ (list format a.campaign_list_params)
    ∷ (overview)
    ∷ (estimate none)
    ∷ (create none)
    ∷ (get_call a.x)
    ∷ (update a.x none)
    ∷ (delete_call a.x)
    ∷ (duplicate a.x none)
    ∷ (start a.x)
    ∷ (stop a.x)
    ∷ (logs format a.x a.options)
    ∷ (preflight a.x)
    ∷ (send_test_email a.x none)
    ∷ (preview_template none)
    ∷ (verify_tracking_domain a.x)
    ∷ (forms a.x)
    ∷ (senders a.x)
    ∷ (replace_senders a.x a.y)
    ∷ (list_segments a.x)
    ∷ []
