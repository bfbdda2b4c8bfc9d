-- ===== src/Services/Bodies/LeadSync.antt =====
-- The parameters that methods of leadsync.go send as a JSON object, and the fields of that object.
use warmbly_go.Common.{Bool, Option, List, [], ◌∷◌}
use warmbly_go.Common.Text.{Bytes}
use warmbly_go.Services.Call.{text, texts, flag, json, always, filled, set_only, or_null, Fields}

pub record LeadSyncCreateParams : Type 0 where
  pub connection_id : Bytes
  pub sheet_id : Bytes
  pub sheet_title : Bytes
  pub tab_title : Bytes
  pub has_header : Bool
  pub column_mapping : Option Bytes
  pub dedup : Bytes
  pub target_campaign_id : Option Bytes
  pub category_ids : List Bytes
  pub subscribed_default : Option Bool
  pub label : Bytes

unfoldable pub lead_sync_create_params_fields : LeadSyncCreateParams → Fields
lead_sync_create_params_fields p =
    ("connection_id", always (text p.connection_id))
    ∷ ("sheet_id", always (text p.sheet_id))
    ∷ ("sheet_title", filled (text p.sheet_title))
    ∷ ("tab_title", filled (text p.tab_title))
    ∷ ("has_header", always (flag p.has_header))
    ∷ ("column_mapping", or_null json p.column_mapping)
    ∷ ("dedup", filled (text p.dedup))
    ∷ ("target_campaign_id", set_only text p.target_campaign_id)
    ∷ ("category_ids", filled (texts p.category_ids))
    ∷ ("subscribed_default", set_only flag p.subscribed_default)
    ∷ ("label", filled (text p.label))
    ∷ []

pub record LeadSyncUpdateParams : Type 0 where
  pub sheet_id : Option Bytes
  pub sheet_title : Option Bytes
  pub tab_title : Option Bytes
  pub has_header : Option Bool
  pub column_mapping : Option Bytes
  pub dedup : Option Bytes
  pub target_campaign_id : Option Bytes
  pub clear_campaign : Bool
  pub category_ids : Option (List Bytes)
  pub subscribed_default : Option Bool
  pub label : Option Bytes

unfoldable pub lead_sync_update_params_fields : LeadSyncUpdateParams → Fields
lead_sync_update_params_fields p =
    ("sheet_id", set_only text p.sheet_id)
    ∷ ("sheet_title", set_only text p.sheet_title)
    ∷ ("tab_title", set_only text p.tab_title)
    ∷ ("has_header", set_only flag p.has_header)
    ∷ ("column_mapping", set_only json p.column_mapping)
    ∷ ("dedup", set_only text p.dedup)
    ∷ ("target_campaign_id", set_only text p.target_campaign_id)
    ∷ ("clear_campaign", filled (flag p.clear_campaign))
    ∷ ("category_ids", set_only texts p.category_ids)
    ∷ ("subscribed_default", set_only flag p.subscribed_default)
    ∷ ("label", set_only text p.label)
    ∷ []
