-- ===== src/Services/Skills.antt =====
-- The requests of `SkillService` (ai.go), one definition for each method.
use warmbly_go.Common.{List, [], Option, none, ◌∷◌}
use warmbly_go.Common.Text.{Bytes}
use warmbly_go.Services.Call.{
  Call, post, patch, delete, lit, esc, bodiless, discarded, at, call, fetch_data, send, encoded,
}
use warmbly_go.Services.Query.{Format}
use warmbly_go.Services.Arguments.{Arguments}
use warmbly_go.Services.Bodies.Ai.{
  SkillCreateParams, SkillUpdateParams, skill_create_params_fields, skill_update_params_fields,
}

abbrev pub list : Call
list = fetch_data (at (lit "ai/skills" ∷ []))

abbrev pub create : Option SkillCreateParams → Call
create params = send post (at (lit "ai/skills" ∷ [])) (encoded skill_create_params_fields params)

abbrev pub update : Bytes → Option SkillUpdateParams → Call
update id params =
    send patch (at (lit "ai/skills/" ∷ esc id ∷ [])) (encoded skill_update_params_fields params)

abbrev pub delete_call : Bytes → Call
delete_call id = call delete (at (lit "ai/skills/" ∷ esc id ∷ [])) bodiless discarded

-- The calls of the methods above, at any arguments; a body that is a parameters object is left nil.
abbrev pub calls : {T : Type 0} → Format T → Arguments T → List Call
calls format a = (list) ∷ (create none) ∷ (update a.x none) ∷ (delete_call a.x) ∷ []
