-- ===== src/Services/OauthApps.antt =====
-- The requests of `OAuthAppService` (oauth.go), one definition for each method.
use warmbly_go.Common.{List, [], Option, none, ◌∷◌}
use warmbly_go.Common.Text.{Bytes}
use warmbly_go.Services.Call.{
  Call, get, post, patch, delete, lit, esc, bodiless, discarded, in_key, at, with_query, call,
  fetch, send, list_json, encoded,
}
use warmbly_go.Services.Query.{Query, Format, del}
use warmbly_go.Services.Arguments.{Arguments}
use warmbly_go.Services.Bodies.OauthApps.{
  AuthorizeParams, DynamicClientParams, OauthAppParams, authorize_params_fields,
  dynamic_client_params_fields, oauth_app_params_fields,
}
use warmbly_go.Services.Params.{WebhookDeliveryListParams, webhook_delivery_list_params_values}

abbrev pub list : Call
list = call get (at (lit "oauth/applications" ∷ [])) bodiless (in_key "applications")

abbrev pub get_call : Bytes → Call
get_call id = fetch (at (lit "oauth/applications/" ∷ esc id ∷ []))

abbrev pub create : Option OauthAppParams → Call
create params =
    send post (at (lit "oauth/applications" ∷ [])) (encoded oauth_app_params_fields params)

abbrev pub update : Bytes → Option OauthAppParams → Call
update id params =
    send patch (at (lit "oauth/applications/" ∷ esc id ∷ []))
      (encoded oauth_app_params_fields params)

abbrev pub delete_call : Bytes → Call
delete_call id = call delete (at (lit "oauth/applications/" ∷ esc id ∷ [])) bodiless discarded

abbrev pub rotate_secret : Bytes → Call
rotate_secret id =
    call post (at (lit "oauth/applications/" ∷ esc id ∷ lit "/rotate-secret" ∷ [])) bodiless
      (in_key "client_secret")

abbrev pub webhook_secret : Bytes → Call
webhook_secret id =
    call get (at (lit "oauth/applications/" ∷ esc id ∷ lit "/webhook-secret" ∷ [])) bodiless
      (in_key "webhook_secret")

abbrev pub rotate_webhook_secret : Bytes → Call
rotate_webhook_secret id =
    call post (at (lit "oauth/applications/" ∷ esc id ∷ lit "/webhook-secret/rotate" ∷ [])) bodiless
      (in_key "webhook_secret")

abbrev pub webhook_endpoints : Bytes → Call
webhook_endpoints id =
    call get (at (lit "oauth/applications/" ∷ esc id ∷ lit "/webhook-endpoints" ∷ [])) bodiless
      (in_key "endpoints")

abbrev pub webhook_deliveries :
    {T : Type 0} → Format T → Bytes → Option WebhookDeliveryListParams → Call
webhook_deliveries format id params =
    list_json (lit "oauth/applications/" ∷ esc id ∷ lit "/webhook-deliveries" ∷ [])
      (del (webhook_delivery_list_params_values format params) "endpoint_id")

abbrev pub authorize_details : Query → Call
authorize_details query = fetch (with_query (lit "oauth/authorize/details" ∷ []) query)

abbrev pub authorize : Option AuthorizeParams → Call
authorize params =
    call post (at (lit "oauth/authorize" ∷ [])) (encoded authorize_params_fields params)
      (in_key "redirect_url")

abbrev pub authorized_apps : Call
authorized_apps =
    call get (at (lit "oauth/authorized-apps" ∷ [])) bodiless (in_key "authorized_apps")

abbrev pub revoke_authorized_app : Bytes → Call
revoke_authorized_app application_id =
    call delete (at (lit "oauth/authorized-apps/" ∷ esc application_id ∷ [])) bodiless discarded

abbrev pub register_dynamic_client : Option DynamicClientParams → Call
register_dynamic_client params =
    send post (at (lit "oauth/register" ∷ [])) (encoded dynamic_client_params_fields params)

-- The calls of the methods above, at any arguments; a body that is a parameters object is left nil.
abbrev pub calls : {T : Type 0} → Format T → Arguments T → List Call
calls format a =
    (list)
    ∷ (get_call a.x)
    ∷ (create none)
    ∷ (update a.x none)
    ∷ (delete_call a.x)
    ∷ (rotate_secret a.x)
    ∷ (webhook_secret a.x)
    ∷ (rotate_webhook_secret a.x)
    ∷ (webhook_endpoints a.x)
    ∷ (webhook_deliveries format a.x a.webhook_delivery_list_params)
    ∷ (authorize_details [])
    ∷ (authorize none)
    ∷ (authorized_apps)
    ∷ (revoke_authorized_app a.x)
    ∷ (register_dynamic_client none)
    ∷ []
