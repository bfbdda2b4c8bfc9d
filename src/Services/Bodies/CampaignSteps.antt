-- ===== src/Services/Bodies/CampaignSteps.antt =====
-- The parameters that methods of campaigns.go send as a JSON object, and the fields of that object.
use warmbly_go.Common.{Bool, Option, [], ◌∷◌}
use warmbly_go.Common.Int.{ℤ}
use warmbly_go.Common.Text.{Bytes}
use warmbly_go.Services.Call.{text, number, flag, json, always, filled, set_only, Fields}

pub record StepUpdateParams : Type 0 where
  pub name : Option Bytes
  pub subject : Option Bytes
  pub body_plain : Option Bytes
  pub body_html : Option Bytes
  pub body_sync : Option Bool
  pub body_code : Option Bool
  pub wait_after : Option ℤ
  pub conditions : Option Bytes
  pub kind : Option Bytes
  pub action : Option Bytes

unfoldable pub step_update_params_fields : StepUpdateParams → Fields
step_update_params_fields p =
    ("name", set_only text p.name)
    ∷ ("subject", set_only text p.subject)
    ∷ ("body_plain", set_only text p.body_plain)
    ∷ ("body_html", set_only text p.body_html)
    ∷ ("body_sync", set_only flag p.body_sync)
    ∷ ("body_code", set_only flag p.body_code)
    ∷ ("wait_after", set_only number p.wait_after)
    ∷ ("conditions", set_only json p.conditions)
    ∷ ("kind", set_only text p.kind)
    ∷ ("action", set_only json p.action)
    ∷ []

pub record AbVariantCreateParams : Type 0 where
  pub name : Bytes
  pub step_id : Bytes
  pub weight : Option ℤ
  pub subject : Bytes
  pub body_html : Bytes
  pub body_plain : Bytes
  pub is_control : Option Bool
  pub is_active : Option Bool
  pub metadata : Option Bytes

unfoldable pub ab_variant_create_params_fields : AbVariantCreateParams → Fields
ab_variant_create_params_fields p =
    ("name", always (text p.name))
    ∷ ("step_id", filled (text p.step_id))
    ∷ ("weight", set_only number p.weight)
    ∷ ("subject", filled (text p.subject))
    ∷ ("body_html", filled (text p.body_html))
    ∷ ("body_plain", filled (text p.body_plain))
    ∷ ("is_control", set_only flag p.is_control)
    ∷ ("is_active", set_only flag p.is_active)
    ∷ ("metadata", set_only json p.metadata)
    ∷ []

pub record AbVariantUpdateParams : Type 0 where
  pub name : Option Bytes
  pub weight : Option ℤ
  pub subject : Option Bytes
  pub body_html : Option Bytes
  pub body_plain : Option Bytes
  pub is_control : Option Bool
  pub is_active : Option Bool
  pub metadata : Option Bytes

unfoldable pub ab_variant_update_params_fields : AbVariantUpdateParams → Fields
ab_variant_update_params_fields p =
    ("name", set_only text p.name)
    ∷ ("weight", set_only number p.weight)
    ∷ ("subject", set_only text p.subject)
    ∷ ("body_html", set_only text p.body_html)
    ∷ ("body_plain", set_only text p.body_plain)
    ∷ ("is_control", set_only flag p.is_control)
    ∷ ("is_active", set_only flag p.is_active)
    ∷ ("metadata", set_only json p.metadata)
    ∷ []

pub record TestEmailParams : Type 0 where
  pub account_id : Bytes
  pub recipient : Bytes
  pub step_id : Bytes
  pub contact_id : Bytes

unfoldable pub test_email_params_fields : TestEmailParams → Fields
test_email_params_fields p =
    ("account_id", always (text p.account_id))
    ∷ ("recipient", always (text p.recipient))
    ∷ ("step_id", filled (text p.step_id))
    ∷ ("contact_id", filled (text p.contact_id))
    ∷ []

pub record TemplatePreviewParams : Type 0 where
  pub subject : Bytes
  pub body_html : Bytes
  pub body_plain : Bytes
  pub contact : Option Bytes
  pub contact_id : Bytes
  pub campaign_id : Bytes
  pub account_id : Bytes
  pub step_id : Bytes

unfoldable pub template_preview_params_fields : TemplatePreviewParams → Fields
template_preview_params_fields p =
    ("subject", filled (text p.subject))
    ∷ ("body_html", filled (text p.body_html))
    ∷ ("body_plain", filled (text p.body_plain))
    ∷ ("contact", set_only json p.contact)
    ∷ ("contact_id", filled (text p.contact_id))
    ∷ ("campaign_id", filled (text p.campaign_id))
    ∷ ("account_id", filled (text p.account_id))
    ∷ ("step_id", filled (text p.step_id))
    ∷ []
