-- ===== src/Services/LeadSync.antt =====
-- The requests of `LeadSyncService` (leadsync.go), one definition for each method.
use warmbly_go.Common.{List, [], Option, none, ◌∷◌, ◌++◌}
use warmbly_go.Common.Text.{Bytes}
use warmbly_go.Services.Call.{
  Call, post, patch, delete, lit, esc, text, bodiless, object, discarded, at, with_query, call,
  fetch, fetch_data, send, field, omit_empty, encoded,
}
use warmbly_go.Services.Query.{Format}
use warmbly_go.Services.Arguments.{Arguments}
use warmbly_go.Services.Bodies.LeadSync.{
  LeadSyncCreateParams, LeadSyncUpdateParams, lead_sync_create_params_fields,
  lead_sync_update_params_fields,
}

abbrev pub connection : Call
connection = fetch (at (lit "lead-sync/google/connection" ∷ []))

abbrev pub spreadsheet : Bytes → Bytes → Call
spreadsheet connection_id sheet_id =
    send post (at (lit "lead-sync/google/spreadsheet" ∷ []))
      (object (field "connection_id" (text connection_id) ++ field "sheet_id" (text sheet_id)))

abbrev pub preview : Bytes → Bytes → Bytes → Call
preview connection_id sheet_id tab_title = send post (at (lit "lead-sync/google/preview" ∷ [])) (
    object (
      field "connection_id" (text connection_id)
      ++ field "sheet_id" (text sheet_id)
      ++ omit_empty "tab_title" (text tab_title)))

abbrev pub sources : Call
sources = fetch_data (at (lit "lead-sync/sources" ∷ []))

abbrev pub sources_for_campaign : Bytes → Call
sources_for_campaign campaign_id =
    fetch_data (with_query (lit "lead-sync/sources" ∷ []) (("campaign_id", campaign_id ∷ []) ∷ []))

abbrev pub create : Option LeadSyncCreateParams → Call
create params =
    send post (at (lit "lead-sync/sources" ∷ [])) (encoded lead_sync_create_params_fields params)

abbrev pub get_call : Bytes → Call
get_call id = fetch (at (lit "lead-sync/sources/" ∷ esc id ∷ []))

abbrev pub update : Bytes → Option LeadSyncUpdateParams → Call
update id params =
    send patch (at (lit "lead-sync/sources/" ∷ esc id ∷ []))
      (encoded lead_sync_update_params_fields params)

abbrev pub delete_call : Bytes → Call
delete_call id = call delete (at (lit "lead-sync/sources/" ∷ esc id ∷ [])) bodiless discarded

abbrev pub sync : Bytes → Call
sync id = send post (at (lit "lead-sync/sources/" ∷ esc id ∷ lit "/sync" ∷ [])) bodiless

-- The calls of the methods above, at any arguments; a body that is a parameters object is left nil.
abbrev pub calls : {T : Type 0} → Format T → Arguments T → List Call
calls format a =
    (connection)
    ∷ (spreadsheet a.x a.y)
    ∷ (preview a.x a.y a.z)
    ∷ (sources)
    ∷ (sources_for_campaign a.x)
    ∷ (create none)
    ∷ (get_call a.x)
    ∷ (update a.x none)
    ∷ (delete_call a.x)
    ∷ (sync a.x)
    ∷ []
