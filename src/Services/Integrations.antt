-- ===== src/Services/Integrations.antt =====
-- The requests of `IntegrationService` (integrations.go), one definition for each method.
use warmbly_go.Common.{List, [], Option, none, ◌∷◌, ◌++◌}
use warmbly_go.Common.Text.{Bytes}
use warmbly_go.Services.Call.{
  Call, get, post, patch, put, delete, lit, esc, text, texts, json, bodiless, object, discarded,
  in_key, at, call, fetch, send, field, omit_empty, encoded,
}
use warmbly_go.Services.Query.{Format}
use warmbly_go.Services.Arguments.{Arguments}
use warmbly_go.Services.Bodies.Integrations.{
  ConnectParams, ConnectionConfigParams, EventSubscriptionParams, connect_params_fields,
  connection_config_params_fields, event_subscription_params_fields,
}

abbrev pub catalog : Call
catalog = call get (at (lit "integrations/catalog" ∷ [])) bodiless (in_key "catalog")

abbrev pub connections : Call
connections = call get (at (lit "integrations/connections" ∷ [])) bodiless (in_key "connections")

abbrev pub connect : Option ConnectParams → Call
connect params =
    send post (at (lit "integrations/connections" ∷ [])) (encoded connect_params_fields params)

abbrev pub connection : Bytes → Call
connection id = fetch (at (lit "integrations/connections/" ∷ esc id ∷ []))

abbrev pub update_config : Bytes → Option ConnectionConfigParams → Call
update_config id params =
    call patch (at (lit "integrations/connections/" ∷ esc id ∷ lit "/config" ∷ []))
      (encoded connection_config_params_fields params) (in_key "connection")

abbrev pub disconnect : Bytes → Call
disconnect id = call delete (at (lit "integrations/connections/" ∷ esc id ∷ [])) bodiless discarded

abbrev pub events : Bytes → Call
events id =
    call get (at (lit "integrations/connections/" ∷ esc id ∷ lit "/events" ∷ [])) bodiless
      (in_key "events")

abbrev pub create_event : Bytes → Option EventSubscriptionParams → Call
create_event id params =
    send post (at (lit "integrations/connections/" ∷ esc id ∷ lit "/events" ∷ []))
      (encoded event_subscription_params_fields params)

abbrev pub delete_event : Bytes → Bytes → Call
delete_event id event_id =
    call delete (at (lit "integrations/connections/" ∷ esc id ∷ lit "/events/" ∷ esc event_id ∷ []))
      bodiless discarded

abbrev pub field_mappings : Bytes → Call
field_mappings id =
    call get (at (lit "integrations/connections/" ∷ esc id ∷ lit "/field-mappings" ∷ [])) bodiless
      (in_key "mappings")

abbrev pub replace_field_mappings : Bytes → Bytes → Bytes → Call
replace_field_mappings id object_arg mappings =
    call put (at (lit "integrations/connections/" ∷ esc id ∷ lit "/field-mappings" ∷ []))
      (object (omit_empty "object" (text object_arg) ++ field "mappings" (json mappings)))
      (in_key "mappings")

abbrev pub runs : Bytes → Call
runs id =
    call get (at (lit "integrations/connections/" ∷ esc id ∷ lit "/runs" ∷ [])) bodiless
      (in_key "runs")

abbrev pub webhook_secret : Bytes → Call
webhook_secret id =
    fetch (at (lit "integrations/connections/" ∷ esc id ∷ lit "/webhook-secret" ∷ []))

abbrev pub test : Bytes → Call
test id =
    call post (at (lit "integrations/connections/" ∷ esc id ∷ lit "/test" ∷ [])) bodiless
      (in_key "sent")

abbrev pub push : Bytes → List Bytes → Call
push id contact_ids =
    send post (at (lit "integrations/connections/" ∷ esc id ∷ lit "/push" ∷ []))
      (object (field "contact_ids" (texts contact_ids)))

abbrev pub start_oauth : Bytes → Bytes → Call
start_oauth provider label =
    send post (at (lit "integrations/oauth/start" ∷ []))
      (object (field "provider" (text provider) ++ omit_empty "label" (text label)))

abbrev pub finish_oauth : Bytes → Bytes → Call
finish_oauth code state =
    send post (at (lit "integrations/oauth/finish" ∷ []))
      (object (field "code" (text code) ++ field "state" (text state)))

abbrev pub reauth_oauth : Bytes → Call
reauth_oauth id = send post (at (lit "integrations/oauth/reauth/" ∷ esc id ∷ [])) bodiless

abbrev pub bookings : Call
bookings = call get (at (lit "integrations/bookings" ∷ [])) bodiless (in_key "bookings")

-- The calls of the methods above, at any arguments; a body that is a parameters object is left nil.
abbrev pub calls : {T : Type 0} → Format T → Arguments T → List Call
calls format a =
    (catalog)
    ∷ (connections)
    ∷ (connect none)
    ∷ (connection a.x)
    ∷ (update_config a.x none)
    ∷ (disconnect a.x)
    ∷ (events a.x)
    ∷ (create_event a.x none)
    ∷ (delete_event a.x a.y)
    ∷ (field_mappings a.x)
    ∷ (replace_field_mappings a.x a.y a.z)
    ∷ (runs a.x)
    ∷ (webhook_secret a.x)
    ∷ (test a.x)
    ∷ (push a.x a.words)
    ∷ (start_oauth a.x a.y)
    ∷ (finish_oauth a.x a.y)
    ∷ (reauth_oauth a.x)
    ∷ (bookings)
    ∷ []
