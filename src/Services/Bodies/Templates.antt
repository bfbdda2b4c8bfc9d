-- ===== src/Services/Bodies/Templates.antt =====
-- The parameters that methods of templates.go send as a JSON object, and the fields of that object.
use warmbly_go.Common.{Option, [], ◌∷◌}
use warmbly_go.Common.Text.{Bytes}
use warmbly_go.Services.Call.{text, always, filled, set_only, Fields}

pub record TemplateCreateParams : Type 0 where
  pub name : Bytes
  pub subject : Bytes
  pub body_html : Bytes
  pub body_plain : Bytes

unfoldable pub template_create_params_fields : TemplateCreateParams → Fields
template_create_params_fields p =
    ("name", always (text p.name))
    ∷ ("subject", filled (text p.subject))
    ∷ ("body_html", filled (text p.body_html))
    ∷ ("body_plain", filled (text p.body_plain))
    ∷ []

pub record TemplateUpdateParams : Type 0 where
  pub name : Option Bytes
  pub subject : Option Bytes
  pub body_html : Option Bytes
  pub body_plain : Option Bytes

unfoldable pub template_update_params_fields : TemplateUpdateParams → Fields
template_update_params_fields p =
    ("name", set_only text p.name)
    ∷ ("subject", set_only text p.subject)
    ∷ ("body_html", set_only text p.body_html)
    ∷ ("body_plain", set_only text p.body_plain)
    ∷ []

pub record TemplateScoreParams : Type 0 where
  pub subject : Bytes
  pub body_html : Bytes
  pub body_plain : Bytes

unfoldable pub template_score_params_fields : TemplateScoreParams → Fields
template_score_params_fields p =
    ("subject", filled (text p.subject))
    ∷ ("body_html", filled (text p.body_html))
    ∷ ("body_plain", filled (text p.body_plain))
    ∷ []
