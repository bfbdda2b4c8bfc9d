-- ===== src/Services/Generation.antt =====
-- The requests of `GenerationService` (ai.go), one definition for each method.
use warmbly_go.Common.{List, [], Option, none, ◌∷◌}
use warmbly_go.Services.Call.{Call, post, lit, at, send, encoded}
use warmbly_go.Services.Query.{Format}
use warmbly_go.Services.Arguments.{Arguments}
use warmbly_go.Services.Bodies.Ai.{
  AiVariableParams, EditParams, WriteParams, ai_variable_params_fields, edit_params_fields,
  write_params_fields,
}

abbrev pub write : Option WriteParams → Call
write params = send post (at (lit "generation/write" ∷ [])) (encoded write_params_fields params)

abbrev pub edit : Option EditParams → Call
edit params = send post (at (lit "generation/edit" ∷ [])) (encoded edit_params_fields params)

abbrev pub ai_variable : Option AiVariableParams → Call
ai_variable params =
    send post (at (lit "generation/ai-variable" ∷ [])) (encoded ai_variable_params_fields params)

-- The calls of the methods above, at any arguments; a body that is a parameters object is left nil.
abbrev pub calls : {T : Type 0} → Format T → Arguments T → List Call
calls format a = (write none) ∷ (edit none) ∷ (ai_variable none) ∷ []
