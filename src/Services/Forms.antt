-- ===== src/Services/Forms.antt =====
-- The requests of `FormService` (forms.go), one definition for each method.
use warmbly_go.Common.{List, [], Option, none, ◌∷◌}
use warmbly_go.Common.Text.{Bytes}
use warmbly_go.Services.Call.{
  Call, post, patch, put, delete, lit, esc, text, bodiless, object, discarded, single, at,
  with_query, call, fetch, fetch_data, send, field, encoded,
}
use warmbly_go.Services.Query.{Format, set_non_empty}
use warmbly_go.Services.Arguments.{Arguments}
use warmbly_go.Services.Bodies.Forms.{
  FormCreateParams, FormUpdateParams, form_create_params_fields, form_update_params_fields,
}

abbrev pub list : Call
list = fetch_data (at (lit "forms" ∷ []))

abbrev pub config : Call
config = fetch (at (lit "forms/config" ∷ []))

abbrev pub create : Option FormCreateParams → Call
create params = send post (at (lit "forms" ∷ [])) (encoded form_create_params_fields params)

abbrev pub get_call : Bytes → Call
get_call id = fetch (at (lit "forms/" ∷ esc id ∷ []))

abbrev pub update : Bytes → Option FormUpdateParams → Call
update id params =
    send patch (at (lit "forms/" ∷ esc id ∷ [])) (encoded form_update_params_fields params)

abbrev pub delete_call : Bytes → Call
delete_call id = call delete (at (lit "forms/" ∷ esc id ∷ [])) bodiless discarded

abbrev pub delete_submission : Bytes → Bytes → Call
delete_submission id submission_id =
    call delete (at (lit "forms/" ∷ esc id ∷ lit "/submissions/" ∷ esc submission_id ∷ [])) bodiless
      discarded

abbrev pub stats : Bytes → Bytes → Call
stats id window =
    fetch (with_query (lit "forms/" ∷ esc id ∷ lit "/stats" ∷ []) (set_non_empty [] "range" window))

abbrev pub mint_link : Bytes → Bytes → Call
mint_link id contact_id = fetch (at (lit "forms/" ∷ esc id ∷ lit "/links/" ∷ esc contact_id ∷ []))

abbrev pub delete_asset : Bytes → Bytes → Call
delete_asset id kind =
    call delete (at (lit "forms/" ∷ esc id ∷ lit "/assets/" ∷ esc kind ∷ [])) bodiless single

abbrev pub domain : Call
domain = fetch (at (lit "forms/domain" ∷ []))

abbrev pub set_domain : Bytes → Call
set_domain domain =
    send put (at (lit "forms/domain" ∷ [])) (object (field "forms_domain" (text domain)))

abbrev pub verify_domain : Call
verify_domain = send post (at (lit "forms/domain/verify" ∷ [])) bodiless

-- The calls of the methods above, at any arguments; a body that is a parameters object is left nil.
abbrev pub calls : {T : Type 0} → Format T → Arguments T → List Call
calls format a =
    (list)
    ∷ (config)
    ∷ (create none)
    ∷ (get_call a.x)
    ∷ (update a.x none)
    ∷ (delete_call a.x)
    ∷ (delete_submission a.x a.y)
    ∷ (stats a.x a.y)
    ∷ (mint_link a.x a.y)
    ∷ (delete_asset a.x a.y)
    ∷ (domain)
    ∷ (set_domain a.x)
    ∷ (verify_domain)
    ∷ []
