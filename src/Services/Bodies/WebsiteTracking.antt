-- ===== src/Services/Bodies/WebsiteTracking.antt =====
-- The parameters that methods of websitetracking.go send as a JSON object, and the fields of that object.
use warmbly_go.Common.{Bool, Option, List, [], ◌∷◌}
use warmbly_go.Common.Int.{ℤ}
use warmbly_go.Common.Text.{Bytes}
use warmbly_go.Services.Call.{text, texts, number, flag, set_only, Fields}

pub record WebsiteTrackingUpdateParams : Type 0 where
  pub enabled : Option Bool
  pub consent_mode : Option Bytes
  pub location_precision : Option Bytes
  pub allowed_hosts : Option (List Bytes)
  pub retention_days : Option ℤ

unfoldable pub website_tracking_update_params_fields : WebsiteTrackingUpdateParams → Fields
website_tracking_update_params_fields p =
    ("enabled", set_only flag p.enabled)
    ∷ ("consent_mode", set_only text p.consent_mode)
    ∷ ("location_precision", set_only text p.location_precision)
    ∷ ("allowed_hosts", set_only texts p.allowed_hosts)
    ∷ ("retention_days", set_only number p.retention_days)
    ∷ []
