-- ===== src/Services/Assistant.antt =====
-- The requests of `AssistantService` (assistant.go), one definition for each method.
use warmbly_go.Common.{List, [], Option, ◌∷◌, ◌++◌}
use warmbly_go.Common.Text.{Bytes}
use warmbly_go.Services.Call.{
  Call, post, patch, delete, lit, esc, text, bodiless, given, object, discarded, event_stream, at,
  call, fetch, fetch_data, send, list_json, field, omit_empty,
}
use warmbly_go.Services.Query.{Format, ListOptions, apply}
use warmbly_go.Services.Arguments.{Arguments}

abbrev pub create_session : Bytes → Bytes → Call
create_session page_name resource =
    send post (at (lit "ai/sessions" ∷ []))
      (object (omit_empty "page" (text page_name) ++ omit_empty "resource" (text resource)))

abbrev pub sessions : {T : Type 0} → Format T → Option ListOptions → Call
sessions format params = list_json (lit "ai/sessions" ∷ []) (apply format params [])

abbrev pub transcript : Bytes → Call
transcript session_id = fetch (at (lit "ai/sessions/" ∷ esc session_id ∷ lit "/messages" ∷ []))

abbrev pub delete_session : Bytes → Call
delete_session session_id =
    call delete (at (lit "ai/sessions/" ∷ esc session_id ∷ [])) bodiless discarded

abbrev pub clear_sessions : Call
clear_sessions = call delete (at (lit "ai/sessions" ∷ [])) bodiless discarded

abbrev pub send_message : Bytes → Option Bytes → Call
send_message session_id params =
    call post (at (lit "ai/sessions/" ∷ esc session_id ∷ lit "/messages" ∷ [])) (given params)
      event_stream

abbrev pub approve : Bytes → Bytes → Call
approve session_id decision =
    call post (at (lit "ai/sessions/" ∷ esc session_id ∷ lit "/approve" ∷ []))
      (object (field "decision" (text decision))) event_stream

abbrev pub mcp_servers : Call
mcp_servers = fetch_data (at (lit "ai/connections" ∷ []))

abbrev pub connect_mcp_server : Option Bytes → Call
connect_mcp_server params = send post (at (lit "ai/connections" ∷ [])) (given params)

abbrev pub update_mcp_server : Bytes → Option Bytes → Call
update_mcp_server id params = send patch (at (lit "ai/connections/" ∷ esc id ∷ [])) (given params)

abbrev pub delete_mcp_server : Bytes → Call
delete_mcp_server id = call delete (at (lit "ai/connections/" ∷ esc id ∷ [])) bodiless discarded

abbrev pub refresh_mcp_server : Bytes → Call
refresh_mcp_server id =
    send post (at (lit "ai/connections/" ∷ esc id ∷ lit "/refresh" ∷ [])) bodiless

-- The calls of the methods above, at any arguments; a body that is a parameters object is left nil.
abbrev pub calls : {T : Type 0} → Format T → Arguments T → List Call
calls format a =
    (create_session a.x a.y)
    ∷ (sessions format a.options)
    ∷ (transcript a.x)
    ∷ (delete_session a.x)
    ∷ (clear_sessions)
    ∷ (send_message a.x a.payload)
    ∷ (approve a.x a.y)
    ∷ (mcp_servers)
    ∷ (connect_mcp_server a.payload)
    ∷ (update_mcp_server a.x a.payload)
    ∷ (delete_mcp_server a.x)
    ∷ (refresh_mcp_server a.x)
    ∷ []
