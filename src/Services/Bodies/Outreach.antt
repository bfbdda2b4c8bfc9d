-- ===== src/Services/Bodies/Outreach.antt =====
-- The parameters that methods of outreach.go send as a JSON object, and the fields of that object.
use warmbly_go.Common.{Option, [], ◌∷◌}
use warmbly_go.Common.Text.{Bytes}
use warmbly_go.Services.Call.{text, json, always, filled, set_only, Fields}

pub record DeliverabilityEventParams : Type 0 where
  pub event_type : Bytes
  pub recipient_email : Bytes
  pub campaign_id : Bytes
  pub task_id : Bytes
  pub contact_id : Bytes
  pub provider : Bytes
  pub reason : Bytes
  pub idempotency_key : Bytes
  pub metadata : Option Bytes

unfoldable pub deliverability_event_params_fields : DeliverabilityEventParams → Fields
deliverability_event_params_fields p =
    ("event_type", always (text p.event_type))
    ∷ ("recipient_email", always (text p.recipient_email))
    ∷ ("campaign_id", filled (text p.campaign_id))
    ∷ ("task_id", filled (text p.task_id))
    ∷ ("contact_id", filled (text p.contact_id))
    ∷ ("provider", filled (text p.provider))
    ∷ ("reason", filled (text p.reason))
    ∷ ("idempotency_key", filled (text p.idempotency_key))
    ∷ ("metadata", set_only json p.metadata)
    ∷ []
