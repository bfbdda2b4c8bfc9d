-- ===== src/Services/Bodies/Forms.antt =====
-- The parameters that methods of forms.go send as a JSON object, and the fields of that object.
use warmbly_go.Common.{Bool, Option, List, [], ◌∷◌}
use warmbly_go.Common.Text.{Bytes}
use warmbly_go.Services.Call.{text, texts, flag, json, always, set_only, or_cleared, Fields}

pub record FormCreateParams : Type 0 where
  pub name : Bytes

unfoldable pub form_create_params_fields : FormCreateParams → Fields
form_create_params_fields p = ("name", always (text p.name)) ∷ []

pub record FormUpdateParams : Type 0 where
  pub name : Option Bytes
  pub status : Option Bytes
  pub fields : Option Bytes
  pub design : Option Bytes
  pub success_message : Option Bytes
  pub redirect_url : Option Bytes
  pub campaign_id : Option Bytes
  pub clear_campaign : Bool
  pub category_ids : Option (List Bytes)
  pub allowed_domains : Option (List Bytes)
  pub captcha_enabled : Option Bool

unfoldable pub form_update_params_fields : FormUpdateParams → Fields
form_update_params_fields p =
    ("name", set_only text p.name)
    ∷ ("status", set_only text p.status)
    ∷ ("fields", set_only json p.fields)
    ∷ ("design", set_only json p.design)
    ∷ ("success_message", set_only text p.success_message)
    ∷ ("redirect_url", set_only text p.redirect_url)
    ∷ ("campaign_id", or_cleared p.campaign_id p.clear_campaign)
    ∷ ("category_ids", set_only texts p.category_ids)
    ∷ ("allowed_domains", set_only texts p.allowed_domains)
    ∷ ("captcha_enabled", set_only flag p.captcha_enabled)
    ∷ []
