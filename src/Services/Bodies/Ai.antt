-- ===== src/Services/Bodies/Ai.antt =====
-- The parameters that methods of ai.go send as a JSON object, and the fields of that object.
use warmbly_go.Common.{Bool, Option, [], ◌∷◌}
use warmbly_go.Common.Text.{Bytes}
use warmbly_go.Services.Call.{text, flag, always, filled, set_only, Fields}

pub record WriteParams : Type 0 where
  pub prompt : Bytes
  pub tone : Bytes

unfoldable pub write_params_fields : WriteParams → Fields
write_params_fields p = ("prompt", always (text p.prompt)) ∷ ("tone", filled (text p.tone)) ∷ []

pub record EditParams : Type 0 where
  pub words : Bytes
  pub instruction : Bytes
  pub context : Bytes
  pub tone : Bytes

unfoldable pub edit_params_fields : EditParams → Fields
edit_params_fields p =
    ("text", always (text p.words))
    ∷ ("instruction", always (text p.instruction))
    ∷ ("context", filled (text p.context))
    ∷ ("tone", filled (text p.tone))
    ∷ []

pub record AiVariableParams : Type 0 where
  pub mode : Bytes
  pub prompt : Bytes
  pub tone : Bytes
  pub web_search : Bool
  pub contact_id : Bytes
  pub context_before : Bytes
  pub context_after : Bytes

unfoldable pub ai_variable_params_fields : AiVariableParams → Fields
ai_variable_params_fields p =
    ("mode", filled (text p.mode))
    ∷ ("prompt", always (text p.prompt))
    ∷ ("tone", filled (text p.tone))
    ∷ ("web_search", filled (flag p.web_search))
    ∷ ("contact_id", filled (text p.contact_id))
    ∷ ("context_before", filled (text p.context_before))
    ∷ ("context_after", filled (text p.context_after))
    ∷ []

pub record SkillCreateParams : Type 0 where
  pub name : Bytes
  pub description : Bytes
  pub content : Bytes
  pub enabled : Option Bool

unfoldable pub skill_create_params_fields : SkillCreateParams → Fields
skill_create_params_fields p =
    ("name", always (text p.name))
    ∷ ("description", filled (text p.description))
    ∷ ("content", filled (text p.content))
    ∷ ("enabled", set_only flag p.enabled)
    ∷ []

pub record SkillUpdateParams : Type 0 where
  pub name : Option Bytes
  pub description : Option Bytes
  pub content : Option Bytes
  pub enabled : Option Bool

unfoldable pub skill_update_params_fields : SkillUpdateParams → Fields
skill_update_params_fields p =
    ("name", set_only text p.name)
    ∷ ("description", set_only text p.description)
    ∷ ("content", set_only text p.content)
    ∷ ("enabled", set_only flag p.enabled)
    ∷ []
