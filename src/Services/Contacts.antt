-- ===== src/Services/Contacts.antt =====
-- The requests of `ContactService` (contacts.go), one definition for each method.
use warmbly_go.Common.{List, [], Option, none, ◌∷◌, ◌++◌}
use warmbly_go.Common.Int.{ℤ}
use warmbly_go.Common.Text.{Bytes}
use warmbly_go.Services.Call.{
  Call, get, post, patch, delete, lit, esc, text, texts, bodiless, given, object, discarded, in_key,
  written, at, with_query, call, fetch, fetch_data, send, send_slice, list_json, field, omit_empty,
  encoded,
}
use warmbly_go.Services.Query.{Format, ListOptions, apply, set_positive}
use warmbly_go.Services.Arguments.{Arguments}
use warmbly_go.Services.Bodies.Contacts.{
  ContactBulkUpdateParams, ContactUpdateParams, ContactVerificationParams,
  contact_bulk_update_params_fields, contact_update_params_fields,
  contact_verification_params_fields,
}
use warmbly_go.Services.Params.{TimelineParams, timeline_params_values}

abbrev pub create : Option Bytes → Call
create contacts = send_slice post (at (lit "contacts" ∷ [])) (given contacts)

abbrev pub bulk_update : Option ContactBulkUpdateParams → Call
bulk_update params =
    send_slice patch (at (lit "contacts" ∷ [])) (encoded contact_bulk_update_params_fields params)

abbrev pub get_call : Bytes → Call
get_call id = fetch (at (lit "contacts/" ∷ esc id ∷ []))

abbrev pub update : Bytes → Option ContactUpdateParams → Call
update id params =
    send patch (at (lit "contacts/" ∷ esc id ∷ [])) (encoded contact_update_params_fields params)

abbrev pub delete_call : Bytes → Call
delete_call id = call delete (at (lit "contacts/" ∷ esc id ∷ [])) bodiless discarded

abbrev pub lookup : Bytes → Call
lookup email =
    call get (with_query (lit "contacts/lookup" ∷ []) (("email", email ∷ []) ∷ [])) bodiless
      (in_key "contact")

abbrev pub custom_fields : Call
custom_fields = fetch_data (at (lit "contacts/custom-fields" ∷ []))

abbrev pub verification_overview : Call
verification_overview = fetch (at (lit "contacts/verification" ∷ []))

abbrev pub request_verification : Option ContactVerificationParams → Call
request_verification params =
    send post (at (lit "contacts/verification" ∷ []))
      (encoded contact_verification_params_fields params)

abbrev pub emails : Bytes → Call
emails id = fetch_data (at (lit "contacts/" ∷ esc id ∷ lit "/emails" ∷ []))

abbrev pub timeline : Bytes → Call
timeline id = fetch_data (at (lit "contacts/" ∷ esc id ∷ lit "/timeline" ∷ []))

abbrev pub list_timeline : {T : Type 0} → Format T → Bytes → Option (TimelineParams T) → Call
list_timeline format id params =
    list_json (lit "contacts/" ∷ esc id ∷ lit "/timeline" ∷ [])
      (timeline_params_values format params)

abbrev pub campaign_states : Bytes → Call
campaign_states id = fetch_data (at (lit "contacts/" ∷ esc id ∷ lit "/campaigns" ∷ []))

abbrev pub segments : Bytes → Call
segments id = fetch_data (at (lit "contacts/" ∷ esc id ∷ lit "/segments" ∷ []))

abbrev pub notes : {T : Type 0} → Format T → Bytes → Option ListOptions → Call
notes format id params =
    list_json (lit "contacts/" ∷ esc id ∷ lit "/notes" ∷ []) (apply format params [])

abbrev pub add_note : Bytes → Bytes → Call
add_note id content =
    send post (at (lit "contacts/" ∷ esc id ∷ lit "/notes" ∷ []))
      (object (field "content" (text content)))

abbrev pub update_note : Bytes → Bytes → Bytes → Call
update_note id note_id content =
    send patch (at (lit "contacts/" ∷ esc id ∷ lit "/notes/" ∷ esc note_id ∷ []))
      (object (field "content" (text content)))

abbrev pub delete_note : Bytes → Bytes → Call
delete_note id note_id =
    call delete (at (lit "contacts/" ∷ esc id ∷ lit "/notes/" ∷ esc note_id ∷ [])) bodiless
      discarded

abbrev pub activities : {T : Type 0} → Format T → Bytes → Option ListOptions → Call
activities format id params =
    list_json (lit "contacts/" ∷ esc id ∷ lit "/activities" ∷ []) (apply format params [])

abbrev pub deals : Bytes → Call
deals id = fetch_data (at (lit "contacts/" ∷ esc id ∷ lit "/deals" ∷ []))

abbrev pub export : Option Bytes → Call
export params = call post (at (lit "contacts/export" ∷ [])) (given params) written

abbrev pub research : Bytes → Bytes → Call
research id objective =
    send post (at (lit "contacts/" ∷ esc id ∷ lit "/research" ∷ []))
      (object (omit_empty "objective" (text objective)))

abbrev pub list_research : {T : Type 0} → Format T → Bytes → ℤ → Call
list_research format id limit = fetch_data (
    with_query (lit "contacts/" ∷ esc id ∷ lit "/research" ∷ [])
      (set_positive format [] "limit" limit))

abbrev pub batch_research : List Bytes → Bytes → Call
batch_research contact_ids objective =
    call post (at (lit "contacts/research/batch" ∷ []))
      (object (field "contact_ids" (texts contact_ids) ++ omit_empty "objective" (text objective)))
      (in_key "queued")

-- The calls of the methods above, at any arguments; a body that is a parameters object is left nil.
abbrev pub calls : {T : Type 0} → Format T → Arguments T → List Call
calls format a =
    (create a.payload)
    ∷ (bulk_update none)
    ∷ (get_call a.x)
    ∷ (update a.x none)
    ∷ (delete_call a.x)
    ∷ (lookup a.x)
    ∷ (custom_fields)
    ∷ (verification_overview)
    ∷ (request_verification none)
    ∷ (emails a.x)
    ∷ (timeline a.x)
    ∷ (list_timeline format a.x a.timeline_params)
    ∷ (campaign_states a.x)
    ∷ (segments a.x)
    ∷ (notes format a.x a.options)
    ∷ (add_note a.x a.y)
    ∷ (update_note a.x a.y a.z)
    ∷ (delete_note a.x a.y)
    ∷ (activities format a.x a.options)
    ∷ (deals a.x)
    ∷ (export a.payload)
    ∷ (research a.x a.y)
    ∷ (list_research format a.x a.number)
    ∷ (batch_research a.words a.x)
    ∷ []
