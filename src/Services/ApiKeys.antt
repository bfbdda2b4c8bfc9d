-- ===== src/Services/ApiKeys.antt =====
-- The requests of `APIKeyService` (apikeys.go), one definition for each method.
use warmbly_go.Common.{List, [], Option, none, ◌∷◌}
use warmbly_go.Common.Text.{Bytes}
use warmbly_go.Services.Call.{
  Call, post, patch, delete, lit, esc, bodiless, discarded, at, with_query, call, fetch, send,
  list_json, encoded,
}
use warmbly_go.Services.Query.{Format, ListOptions, apply, set_non_empty}
use warmbly_go.Services.Arguments.{Arguments}
use warmbly_go.Services.Bodies.ApiKeys.{
  ApiKeyCreateParams, ApiKeyUpdateParams, api_key_create_params_fields,
  api_key_update_params_fields,
}
use warmbly_go.Services.Params.{ApiKeyAnalyticsParams, api_key_analytics_params_values}

abbrev pub list : {T : Type 0} → Format T → Option ListOptions → Call
list format params = list_json (lit "api-keys" ∷ []) (apply format params [])

abbrev pub get_call : Bytes → Call
get_call id = fetch (at (lit "api-keys/" ∷ esc id ∷ []))

abbrev pub create : Option ApiKeyCreateParams → Call
create params = send post (at (lit "api-keys" ∷ [])) (encoded api_key_create_params_fields params)

abbrev pub update : Bytes → Option ApiKeyUpdateParams → Call
update id params =
    send patch (at (lit "api-keys/" ∷ esc id ∷ [])) (encoded api_key_update_params_fields params)

abbrev pub revoke : Bytes → Bytes → Call
revoke id reason =
    call delete (with_query (lit "api-keys/" ∷ esc id ∷ []) (set_non_empty [] "reason" reason))
      bodiless discarded

abbrev pub revoke_self : Bytes → Call
revoke_self reason =
    call delete (with_query (lit "api-keys/self" ∷ []) (set_non_empty [] "reason" reason)) bodiless
      discarded

abbrev pub permissions : Call
permissions = fetch (at (lit "api-keys/permissions" ∷ []))

abbrev pub usage_summary : Call
usage_summary = fetch (at (lit "api-keys/usage/summary" ∷ []))

abbrev pub usage_analytics : {T : Type 0} → Format T → Option (ApiKeyAnalyticsParams T) → Call
usage_analytics format params = fetch (
    with_query (lit "api-keys/usage/analytics" ∷ [])
      (api_key_analytics_params_values format params))

abbrev pub analytics : {T : Type 0} → Format T → Bytes → Option (ApiKeyAnalyticsParams T) → Call
analytics format id params = fetch (
    with_query (lit "api-keys/" ∷ esc id ∷ lit "/analytics" ∷ [])
      (api_key_analytics_params_values format params))

abbrev pub logs : {T : Type 0} → Format T → Bytes → Option ListOptions → Call
logs format id params =
    list_json (lit "api-keys/" ∷ esc id ∷ lit "/logs" ∷ []) (apply format params [])

-- The calls of the methods above, at any arguments; a body that is a parameters object is left nil.
abbrev pub calls : {T : Type 0} → Format T → Arguments T → List Call
calls format a =
    (list format a.options)
    ∷ (get_call a.x)
    ∷ (create none)
    ∷ (update a.x none)
    ∷ (revoke a.x a.y)
    ∷ (revoke_self a.x)
    ∷ (permissions)
    ∷ (usage_summary)
    ∷ (usage_analytics format a.api_key_analytics_params)
    ∷ (analytics format a.x a.api_key_analytics_params)
    ∷ (logs format a.x a.options)
    ∷ []
