-- ===== src/Services/Teams.antt =====
-- The requests of `TeamService` (teams.go), one definition for each method.
use warmbly_go.Common.{List, [], Option, none, ◌∷◌}
use warmbly_go.Common.Text.{Bytes}
use warmbly_go.Services.Call.{
  Call, post, patch, delete, lit, esc, text, bodiless, object, discarded, at, call, fetch,
  fetch_data, send, field, encoded,
}
use warmbly_go.Services.Query.{Format}
use warmbly_go.Services.Arguments.{Arguments}
use warmbly_go.Services.Bodies.Teams.{
  TeamCreateParams, TeamUpdateParams, team_create_params_fields, team_update_params_fields,
}

abbrev pub list : Call
list = fetch_data (at (lit "teams" ∷ []))

abbrev pub create : Option TeamCreateParams → Call
create params = send post (at (lit "teams" ∷ [])) (encoded team_create_params_fields params)

abbrev pub get_call : Bytes → Call
get_call id = fetch (at (lit "teams/" ∷ esc id ∷ []))

abbrev pub update : Bytes → Option TeamUpdateParams → Call
update id params =
    send patch (at (lit "teams/" ∷ esc id ∷ [])) (encoded team_update_params_fields params)

abbrev pub delete_call : Bytes → Call
delete_call id = call delete (at (lit "teams/" ∷ esc id ∷ [])) bodiless discarded

abbrev pub add_member : Bytes → Bytes → Call
add_member id user_id =
    send post (at (lit "teams/" ∷ esc id ∷ lit "/members" ∷ []))
      (object (field "user_id" (text user_id)))

abbrev pub remove_member : Bytes → Bytes → Call
remove_member id user_id =
    call delete (at (lit "teams/" ∷ esc id ∷ lit "/members/" ∷ esc user_id ∷ [])) bodiless discarded

-- The calls of the methods above, at any arguments; a body that is a parameters object is left nil.
abbrev pub calls : {T : Type 0} → Format T → Arguments T → List Call
calls format a =
    (list)
    ∷ (create none)
    ∷ (get_call a.x)
    ∷ (update a.x none)
    ∷ (delete_call a.x)
    ∷ (add_member a.x a.y)
    ∷ (remove_member a.x a.y)
    ∷ []
