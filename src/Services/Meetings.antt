-- ===== src/Services/Meetings.antt =====
-- The requests of `MeetingService` (integrations.go), one definition for each method.
use warmbly_go.Common.{List, [], Option, none, ◌∷◌}
use warmbly_go.Common.Text.{Bytes}
use warmbly_go.Services.Call.{
  Call, post, delete, lit, esc, bodiless, discarded, in_key, at, call, fetch, list_json, encoded,
}
use warmbly_go.Services.Query.{Format}
use warmbly_go.Services.Arguments.{Arguments}
use warmbly_go.Services.Bodies.Integrations.{MeetingCreateParams, meeting_create_params_fields}
use warmbly_go.Services.Params.{MeetingListParams, meeting_list_params_values}

abbrev pub list : {T : Type 0} → Format T → Option MeetingListParams → Call
list format params = list_json (lit "meetings" ∷ []) (meeting_list_params_values format params)

abbrev pub summary : Call
summary = fetch (at (lit "meetings/summary" ∷ []))

abbrev pub create : Option MeetingCreateParams → Call
create params =
    call post (at (lit "meetings" ∷ [])) (encoded meeting_create_params_fields params)
      (in_key "meeting")

abbrev pub delete_call : Bytes → Call
delete_call id = call delete (at (lit "meetings/" ∷ esc id ∷ [])) bodiless discarded

-- The calls of the methods above, at any arguments; a body that is a parameters object is left nil.
abbrev pub calls : {T : Type 0} → Format T → Arguments T → List Call
calls format a =
    (list format a.meeting_list_params) ∷ (summary) ∷ (create none) ∷ (delete_call a.x) ∷ []
