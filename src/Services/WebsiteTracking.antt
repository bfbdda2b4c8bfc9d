-- ===== src/Services/WebsiteTracking.antt =====
-- The requests of `WebsiteTrackingService` (websitetracking.go), one definition for each method.
use warmbly_go.Common.{List, [], Option, none, ◌∷◌}
use warmbly_go.Services.Call.{Call, post, patch, lit, bodiless, at, fetch, send, encoded}
use warmbly_go.Services.Query.{Format}
use warmbly_go.Services.Arguments.{Arguments}
use warmbly_go.Services.Bodies.WebsiteTracking.{
  WebsiteTrackingUpdateParams, website_tracking_update_params_fields,
}

abbrev pub settings : Call
settings = fetch (at (lit "website-tracking/settings" ∷ []))

abbrev pub update_settings : Option WebsiteTrackingUpdateParams → Call
update_settings params =
    send patch (at (lit "website-tracking/settings" ∷ []))
      (encoded website_tracking_update_params_fields params)

abbrev pub rotate_key : Call
rotate_key = send post (at (lit "website-tracking/settings/rotate-key" ∷ [])) bodiless

-- The calls of the methods above, at any arguments; a body that is a parameters object is left nil.
abbrev pub calls : {T : Type 0} → Format T → Arguments T → List Call
calls format a = (settings) ∷ (update_settings none) ∷ (rotate_key) ∷ []
