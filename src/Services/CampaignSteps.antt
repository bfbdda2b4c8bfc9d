-- ===== src/Services/CampaignSteps.antt =====
-- The requests of `CampaignService` (campaigns.go), one definition for each method.
use warmbly_go.Common.{List, [], Option, none, ◌∷◌}
use warmbly_go.Common.Text.{Bytes}
use warmbly_go.Services.Call.{
  Call, post, patch, put, delete, lit, esc, texts, json, bodiless, object, discarded, at, call,
  fetch, fetch_slice, fetch_data, send, field, encoded,
}
use warmbly_go.Services.Query.{Format}
use warmbly_go.Services.Arguments.{Arguments}
use warmbly_go.Services.Bodies.CampaignSteps.{
  AbVariantCreateParams, AbVariantUpdateParams, StepUpdateParams, ab_variant_create_params_fields,
  ab_variant_update_params_fields, step_update_params_fields,
}

abbrev pub set_segments : Bytes → List Bytes → Call
set_segments id segment_ids =
    send put (at (lit "campaigns/" ∷ esc id ∷ lit "/segments" ∷ []))
      (object (field "segment_ids" (texts segment_ids)))

abbrev pub advanced_settings : Bytes → Call
advanced_settings id = fetch (at (lit "campaigns/" ∷ esc id ∷ lit "/advanced" ∷ []))

abbrev pub update_advanced_settings : Bytes → Bytes → Call
update_advanced_settings id overrides =
    call patch (at (lit "campaigns/" ∷ esc id ∷ lit "/advanced" ∷ []))
      (object (field "settings" (json overrides))) discarded

abbrev pub list_steps : Bytes → Call
list_steps id = fetch_slice (at (lit "campaigns/" ∷ esc id ∷ lit "/steps" ∷ []))

abbrev pub create_step : Bytes → Call
create_step id = send post (at (lit "campaigns/" ∷ esc id ∷ lit "/steps" ∷ [])) bodiless

abbrev pub update_step : Bytes → Bytes → Option StepUpdateParams → Call
update_step id step_id params =
    send patch (at (lit "campaigns/" ∷ esc id ∷ lit "/steps/" ∷ esc step_id ∷ []))
      (encoded step_update_params_fields params)

abbrev pub delete_step : Bytes → Bytes → Call
delete_step id step_id =
    call delete (at (lit "campaigns/" ∷ esc id ∷ lit "/steps/" ∷ esc step_id ∷ [])) bodiless
      discarded

abbrev pub update_step_layout : Bytes → Bytes → Call
update_step_layout id positions =
    call patch (at (lit "campaigns/" ∷ esc id ∷ lit "/step-layout" ∷ []))
      (object (field "positions" (json positions))) discarded

abbrev pub list_ab_variants : Bytes → Call
list_ab_variants id = fetch_data (at (lit "campaigns/" ∷ esc id ∷ lit "/ab-variants" ∷ []))

abbrev pub create_ab_variant : Bytes → Option AbVariantCreateParams → Call
create_ab_variant id params =
    send post (at (lit "campaigns/" ∷ esc id ∷ lit "/ab-variants" ∷ []))
      (encoded ab_variant_create_params_fields params)

abbrev pub update_ab_variant : Bytes → Bytes → Option AbVariantUpdateParams → Call
update_ab_variant id variant_id params =
    send patch (at (lit "campaigns/" ∷ esc id ∷ lit "/ab-variants/" ∷ esc variant_id ∷ []))
      (encoded ab_variant_update_params_fields params)

abbrev pub delete_ab_variant : Bytes → Bytes → Call
delete_ab_variant id variant_id =
    call delete (at (lit "campaigns/" ∷ esc id ∷ lit "/ab-variants/" ∷ esc variant_id ∷ []))
      bodiless discarded

abbrev pub ab_analysis : Bytes → Call
ab_analysis id = fetch (at (lit "campaigns/" ∷ esc id ∷ lit "/ab-analysis" ∷ []))

abbrev pub list_attachments : Bytes → Call
list_attachments id = fetch_data (at (lit "campaigns/" ∷ esc id ∷ lit "/attachments" ∷ []))

abbrev pub delete_attachment : Bytes → Bytes → Call
delete_attachment id attachment_id =
    call delete (at (lit "campaigns/" ∷ esc id ∷ lit "/attachments/" ∷ esc attachment_id ∷ []))
      bodiless discarded

-- The calls of the methods above, at any arguments; a body that is a parameters object is left nil.
abbrev pub calls : {T : Type 0} → Format T → Arguments T → List Call
calls format a =
    (set_segments a.x a.words)
    ∷ (advanced_settings a.x)
    ∷ (update_advanced_settings a.x a.y)
    ∷ (list_steps a.x)
    ∷ (create_step a.x)
    ∷ (update_step a.x a.y none)
    ∷ (delete_step a.x a.y)
    ∷ (update_step_layout a.x a.y)
    ∷ (list_ab_variants a.x)
    ∷ (create_ab_variant a.x none)
    ∷ (update_ab_variant a.x a.y none)
    ∷ (delete_ab_variant a.x a.y)
    ∷ (ab_analysis a.x)
    ∷ (list_attachments a.x)
    ∷ (delete_attachment a.x a.y)
    ∷ []
