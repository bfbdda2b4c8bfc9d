-- ===== src/Services/Bodies/WebhookEndpoints.antt =====
-- The parameters that methods of webhooks.go send as a JSON object, and the fields of that object.
use warmbly_go.Common.{Bool, Option, List, [], ◌∷◌}
use warmbly_go.Common.Text.{Bytes}
use warmbly_go.Services.Call.{text, texts, flag, always, filled, set_only, Fields}

pub record WebhookCreateParams : Type 0 where
  pub url : Bytes
  pub description : Bytes
  pub event_types : List Bytes
  pub enabled : Option Bool

unfoldable pub webhook_create_params_fields : WebhookCreateParams → Fields
webhook_create_params_fields p =
    ("url", always (text p.url))
    ∷ ("description", filled (text p.description))
    ∷ ("event_types", filled (texts p.event_types))
    ∷ ("enabled", set_only flag p.enabled)
    ∷ []

pub record WebhookUpdateParams : Type 0 where
  pub url : Bytes
  pub description : Bytes
  pub event_types : List Bytes
  pub enabled : Option Bool

unfoldable pub webhook_update_params_fields : WebhookUpdateParams → Fields
webhook_update_params_fields p =
    ("url", always (text p.url))
    ∷ ("description", filled (text p.description))
    ∷ ("event_types", filled (texts p.event_types))
    ∷ ("enabled", set_only flag p.enabled)
    ∷ []
