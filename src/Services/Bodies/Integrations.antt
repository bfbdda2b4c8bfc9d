-- ===== src/Services/Bodies/Integrations.antt =====
-- The parameters that methods of integrations.go send as a JSON object, and the fields of that object.
use warmbly_go.Common.{Bool, Option, [], ◌∷◌}
use warmbly_go.Common.Int.{ℤ}
use warmbly_go.Common.Text.{Bytes}
use warmbly_go.Services.Call.{text, number, flag, json, always, filled, set_only, Fields}

pub record EventSubscriptionParams : Type 0 where
  pub event_type : Bytes
  pub action : Bytes
  pub config : Option Bytes
  pub enabled : Option Bool

unfoldable pub event_subscription_params_fields : EventSubscriptionParams → Fields
event_subscription_params_fields p =
    ("event_type", always (text p.event_type))
    ∷ ("action", always (text p.action))
    ∷ ("config", set_only json p.config)
    ∷ ("enabled", set_only flag p.enabled)
    ∷ []

pub record ConnectParams : Type 0 where
  pub provider : Bytes
  pub label : Bytes
  pub config : Option Bytes

unfoldable pub connect_params_fields : ConnectParams → Fields
connect_params_fields p =
    ("provider", always (text p.provider))
    ∷ ("label", filled (text p.label))
    ∷ ("config", set_only json p.config)
    ∷ []

pub record ConnectionConfigParams : Type 0 where
  pub config_capabilities : Option Bytes
  pub sync_direction : Bytes

unfoldable pub connection_config_params_fields : ConnectionConfigParams → Fields
connection_config_params_fields p =
    ("config_capabilities", set_only json p.config_capabilities)
    ∷ ("sync_direction", filled (text p.sync_direction))
    ∷ []

pub record MeetingCreateParams : Type 0 where
  pub title : Bytes
  pub invitee_name : Bytes
  pub invitee_email : Bytes
  pub scheduled_for : Bytes
  pub duration_minutes : ℤ
  pub location : Bytes
  pub join_url : Bytes
  pub contact_id : Bytes

unfoldable pub meeting_create_params_fields : MeetingCreateParams → Fields
meeting_create_params_fields p =
    ("title", filled (text p.title))
    ∷ ("invitee_name", filled (text p.invitee_name))
    ∷ ("invitee_email", always (text p.invitee_email))
    ∷ ("scheduled_for", filled (text p.scheduled_for))
    ∷ ("duration_minutes", filled (number p.duration_minutes))
    ∷ ("location", filled (text p.location))
    ∷ ("join_url", filled (text p.join_url))
    ∷ ("contact_id", filled (text p.contact_id))
    ∷ []
