-- ===== src/Services/WebhookEndpoints.antt =====
-- The requests of `WebhookService` (webhooks.go), one definition for each method.
use warmbly_go.Common.{List, [], Option, none, ◌∷◌}
use warmbly_go.Common.Text.{Bytes}
use warmbly_go.Services.Call.{
  Call, get, post, patch, delete, lit, esc, bodiless, discarded, in_key, at, call, fetch, send,
  list_json, encoded,
}
use warmbly_go.Services.Query.{Format, del}
use warmbly_go.Services.Arguments.{Arguments}
use warmbly_go.Services.Bodies.WebhookEndpoints.{
  WebhookCreateParams, WebhookUpdateParams, webhook_create_params_fields,
  webhook_update_params_fields,
}
use warmbly_go.Services.Params.{WebhookDeliveryListParams, webhook_delivery_list_params_values}

abbrev pub list : Call
list = fetch (at (lit "webhooks" ∷ []))

abbrev pub create : Option WebhookCreateParams → Call
create params = send post (at (lit "webhooks" ∷ [])) (encoded webhook_create_params_fields params)

abbrev pub update : Bytes → Option WebhookUpdateParams → Call
update id params =
    send patch (at (lit "webhooks/" ∷ esc id ∷ [])) (encoded webhook_update_params_fields params)

abbrev pub delete_call : Bytes → Call
delete_call id = call delete (at (lit "webhooks/" ∷ esc id ∷ [])) bodiless discarded

abbrev pub rotate_secret : Bytes → Call
rotate_secret id =
    call post (at (lit "webhooks/" ∷ esc id ∷ lit "/rotate-secret" ∷ [])) bodiless (in_key "secret")

abbrev pub verify : Bytes → Call
verify id = call post (at (lit "webhooks/" ∷ esc id ∷ lit "/verify" ∷ [])) bodiless discarded

abbrev pub event_types : Call
event_types = call get (at (lit "webhooks/event-types" ∷ [])) bodiless (in_key "event_types")

abbrev pub deliveries : {T : Type 0} → Format T → Option WebhookDeliveryListParams → Call
deliveries format params =
    list_json (lit "webhooks/deliveries" ∷ []) (webhook_delivery_list_params_values format params)

abbrev pub endpoint_deliveries :
    {T : Type 0} → Format T → Bytes → Option WebhookDeliveryListParams → Call
endpoint_deliveries format id params =
    list_json (lit "webhooks/" ∷ esc id ∷ lit "/deliveries" ∷ [])
      (del (webhook_delivery_list_params_values format params) "endpoint_id")

abbrev pub redeliver : Bytes → Call
redeliver delivery_id =
    call post (at (lit "webhooks/deliveries/" ∷ esc delivery_id ∷ lit "/redeliver" ∷ [])) bodiless
      discarded

abbrev pub drops : Call
drops = call get (at (lit "webhooks/throttle-drops" ∷ [])) bodiless (in_key "drops")

-- The calls of the methods above, at any arguments; a body that is a parameters object is left nil.
abbrev pub calls : {T : Type 0} → Format T → Arguments T → List Call
calls format a =
    (list)
    ∷ (create none)
    ∷ (update a.x none)
    ∷ (delete_call a.x)
    ∷ (rotate_secret a.x)
    ∷ (verify a.x)
    ∷ (event_types)
    ∷ (deliveries format a.webhook_delivery_list_params)
    ∷ (endpoint_deliveries format a.x a.webhook_delivery_list_params)
    ∷ (redeliver a.x)
    ∷ (drops)
    ∷ []
