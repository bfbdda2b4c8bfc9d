-- ===== src/Services/Bodies/Advisor.antt =====
-- The parameters that methods of advisor.go send as a JSON object, and the fields of that object.
use warmbly_go.Common.{Bool, Option, List, [], ◌∷◌}
use warmbly_go.Common.Text.{Bytes}
use warmbly_go.Services.Call.{text, texts, flag, json, always, set_only, Fields}

pub record AdvisorSettings : Type 0 where
  pub organization_id : Bytes
  pub enabled : Bool
  pub muted_categories : List Bytes
  pub muted_detectors : List Bytes
  pub min_severity : Bytes
  pub autopilot : Bool
  pub autopilot_actor_id : Option Bytes
  pub updated_at : Bytes

unfoldable pub advisor_settings_fields : AdvisorSettings → Fields
advisor_settings_fields p =
    ("organization_id", always (text p.organization_id))
    ∷ ("enabled", always (flag p.enabled))
    ∷ ("muted_categories", always (texts p.muted_categories))
    ∷ ("muted_detectors", always (texts p.muted_detectors))
    ∷ ("min_severity", always (text p.min_severity))
    ∷ ("autopilot", always (flag p.autopilot))
    ∷ ("autopilot_actor_id", set_only text p.autopilot_actor_id)
    ∷ ("updated_at", always (json p.updated_at))
    ∷ []
