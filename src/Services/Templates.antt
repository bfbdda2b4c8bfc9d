-- ===== src/Services/Templates.antt =====
-- The requests of `TemplateService` (templates.go), one definition for each method.
use warmbly_go.Common.{List, [], Option, none, ◌∷◌}
use warmbly_go.Common.Text.{Bytes}
use warmbly_go.Services.Call.{
  Call, post, patch, delete, lit, esc, texts, json, bodiless, object, discarded, at, with_query,
  call, fetch, fetch_data, send, send_data, field, omit_empty, encoded,
}
use warmbly_go.Services.Query.{Format, set_non_empty}
use warmbly_go.Services.Arguments.{Arguments}
use warmbly_go.Services.Bodies.Templates.{
  TemplateCreateParams, TemplateScoreParams, TemplateUpdateParams, template_create_params_fields,
  template_score_params_fields, template_update_params_fields,
}

abbrev pub list : Bytes → Call
list query = fetch_data (with_query (lit "templates" ∷ []) (set_non_empty [] "q" query))

abbrev pub get_call : Bytes → Call
get_call id = fetch (at (lit "templates/" ∷ esc id ∷ []))

abbrev pub create : Option TemplateCreateParams → Call
create params = send post (at (lit "templates" ∷ [])) (encoded template_create_params_fields params)

abbrev pub update : Bytes → Option TemplateUpdateParams → Call
update id params =
    send patch (at (lit "templates/" ∷ esc id ∷ [])) (encoded template_update_params_fields params)

abbrev pub delete_call : Bytes → Call
delete_call id = call delete (at (lit "templates/" ∷ esc id ∷ [])) bodiless discarded

abbrev pub reorder : List Bytes → Call
reorder ids = send_data patch (at (lit "templates/reorder" ∷ [])) (object (field "ids" (texts ids)))

abbrev pub duplicate : Bytes → Call
duplicate id = send post (at (lit "templates/" ∷ esc id ∷ lit "/duplicate" ∷ [])) bodiless

abbrev pub render : Bytes → Bytes → Call
render id variables =
    send post (at (lit "templates/" ∷ esc id ∷ lit "/render" ∷ []))
      (object (omit_empty "variables" (json variables)))

abbrev pub score : Option TemplateScoreParams → Call
score params =
    send post (at (lit "templates/score" ∷ [])) (encoded template_score_params_fields params)

-- The calls of the methods above, at any arguments; a body that is a parameters object is left nil.
abbrev pub calls : {T : Type 0} → Format T → Arguments T → List Call
calls format a =
    (list a.x)
    ∷ (get_call a.x)
    ∷ (create none)
    ∷ (update a.x none)
    ∷ (delete_call a.x)
    ∷ (reorder a.words)
    ∷ (duplicate a.x)
    ∷ (render a.x a.y)
    ∷ (score none)
    ∷ []
