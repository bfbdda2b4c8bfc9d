-- ===== src/Services/Segments.antt =====
-- The requests of `SegmentService` (segments.go), one definition for each method.
use warmbly_go.Common.{List, [], Option, none, ◌∷◌, ◌++◌}
use warmbly_go.Common.Text.{Bytes}
use warmbly_go.Services.Call.{
  Call, post, patch, delete, lit, esc, text, texts, bodiless, object, discarded, in_key, at, call,
  fetch, fetch_data, send, field, encoded,
}
use warmbly_go.Services.Query.{Format}
use warmbly_go.Services.Arguments.{Arguments}
use warmbly_go.Services.Bodies.Segments.{
  SegmentCreateParams, SegmentPreviewParams, SegmentUpdateParams, segment_create_params_fields,
  segment_preview_params_fields, segment_update_params_fields,
}

abbrev pub list : Call
list = fetch_data (at (lit "segments" ∷ []))

abbrev pub fields : Call
fields = fetch_data (at (lit "segments/fields" ∷ []))

abbrev pub preview : Option SegmentPreviewParams → Call
preview params =
    send post (at (lit "segments/preview" ∷ [])) (encoded segment_preview_params_fields params)

abbrev pub create : Option SegmentCreateParams → Call
create params = send post (at (lit "segments" ∷ [])) (encoded segment_create_params_fields params)

abbrev pub get_call : Bytes → Call
get_call id = fetch (at (lit "segments/" ∷ esc id ∷ []))

abbrev pub update : Bytes → Option SegmentUpdateParams → Call
update id params =
    send patch (at (lit "segments/" ∷ esc id ∷ [])) (encoded segment_update_params_fields params)

abbrev pub delete_call : Bytes → Call
delete_call id = call delete (at (lit "segments/" ∷ esc id ∷ [])) bodiless discarded

abbrev pub set_members : Bytes → List Bytes → Bytes → Call
set_members id contact_ids mode =
    call post (at (lit "segments/" ∷ esc id ∷ lit "/members" ∷ []))
      (object (field "contacts" (texts contact_ids) ++ field "mode" (text mode))) (in_key "updated")

abbrev pub member_modes : Bytes → List Bytes → Call
member_modes id contact_ids =
    call post (at (lit "segments/" ∷ esc id ∷ lit "/members/lookup" ∷ []))
      (object (field "contacts" (texts contact_ids))) (in_key "data")

abbrev pub overrides : Bytes → Call
overrides id = fetch_data (at (lit "segments/" ∷ esc id ∷ lit "/overrides" ∷ []))

abbrev pub add_to_campaign : Bytes → Bytes → Call
add_to_campaign id campaign_id =
    send post (at (lit "segments/" ∷ esc id ∷ lit "/add-to-campaign" ∷ []))
      (object (field "campaign_id" (text campaign_id)))

-- The calls of the methods above, at any arguments; a body that is a parameters object is left nil.
abbrev pub calls : {T : Type 0} → Format T → Arguments T → List Call
calls format a =
    (list)
    ∷ (fields)
    ∷ (preview none)
    ∷ (create none)
    ∷ (get_call a.x)
    ∷ (update a.x none)
    ∷ (delete_call a.x)
    ∷ (set_members a.x a.words a.y)
    ∷ (member_modes a.x a.words)
    ∷ (overrides a.x)
    ∷ (add_to_campaign a.x a.y)
    ∷ []
