-- ===== src/Services/Bodies/ApiKeys.antt =====
-- The parameters that methods of apikeys.go send as a JSON object, and the fields of that object.
use warmbly_go.Common.{Option, List, [], ◌∷◌}
use warmbly_go.Common.Int.{ℤ}
use warmbly_go.Common.Text.{Bytes}
use warmbly_go.Services.Call.{text, texts, number, json, always, filled, set_only, Fields}

pub record ApiKeyCreateParams : Type 0 where
  pub name : Bytes
  pub description : Bytes
  pub permissions : ℤ
  pub allowed_i_ps : List Bytes
  pub allowed_email_accounts : List Bytes
  pub rate_limit_per_minute : ℤ
  pub expires_at : Option Bytes

unfoldable pub api_key_create_params_fields : ApiKeyCreateParams → Fields
api_key_create_params_fields p =
    ("name", always (text p.name))
    ∷ ("description", filled (text p.description))
    ∷ ("permissions", always (number p.permissions))
    ∷ ("allowed_ips", filled (texts p.allowed_i_ps))
    ∷ ("allowed_email_accounts", filled (texts p.allowed_email_accounts))
    ∷ ("rate_limit_per_minute", filled (number p.rate_limit_per_minute))
    ∷ ("expires_at", set_only json p.expires_at)
    ∷ []

pub record ApiKeyUpdateParams : Type 0 where
  pub name : Option Bytes
  pub description : Option Bytes
  pub permissions : Option ℤ
  pub allowed_i_ps : Option (List Bytes)
  pub allowed_email_accounts : Option (List Bytes)
  pub rate_limit_per_minute : Option ℤ

unfoldable pub api_key_update_params_fields : ApiKeyUpdateParams → Fields
api_key_update_params_fields p =
    ("name", set_only text p.name)
    ∷ ("description", set_only text p.description)
    ∷ ("permissions", set_only number p.permissions)
    ∷ ("allowed_ips", set_only texts p.allowed_i_ps)
    ∷ ("allowed_email_accounts", set_only texts p.allowed_email_accounts)
    ∷ ("rate_limit_per_minute", set_only number p.rate_limit_per_minute)
    ∷ []
