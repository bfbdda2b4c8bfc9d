-- ===== src/Services/Bodies/Contacts.antt =====
-- The parameters that methods of contacts.go send as a JSON object, and the fields of that object.
use warmbly_go.Common.{Bool, Option, List, [], ◌∷◌}
use warmbly_go.Common.Text.{Bytes}
use warmbly_go.Services.Call.{text, texts, flag, json, always, filled, set_only, Fields}

pub record ContactUpdateParams : Type 0 where
  pub first_name : Option Bytes
  pub last_name : Option Bytes
  pub company : Option Bytes
  pub phone : Option Bytes
  pub custom_fields : Option Bytes
  pub subscribed : Option Bool
  pub campaigns : List Bytes
  pub categories : List Bytes
  pub add_categories : List Bytes
  pub remove_categories : List Bytes

unfoldable pub contact_update_params_fields : ContactUpdateParams → Fields
contact_update_params_fields p =
    ("first_name", set_only text p.first_name)
    ∷ ("last_name", set_only text p.last_name)
    ∷ ("company", set_only text p.company)
    ∷ ("phone", set_only text p.phone)
    ∷ ("custom_fields", set_only json p.custom_fields)
    ∷ ("subscribed", set_only flag p.subscribed)
    ∷ ("campaigns", filled (texts p.campaigns))
    ∷ ("categories", filled (texts p.categories))
    ∷ ("add_categories", filled (texts p.add_categories))
    ∷ ("remove_categories", filled (texts p.remove_categories))
    ∷ []

pub record ContactBulkUpdateParams : Type 0 where
  pub contacts : List Bytes
  pub add_campaigns : List Bytes
  pub remove_campaigns : List Bytes
  pub add_categories : List Bytes
  pub remove_categories : List Bytes
  pub fields : Option Bytes
  pub subscribe : Option Bool

unfoldable pub contact_bulk_update_params_fields : ContactBulkUpdateParams → Fields
contact_bulk_update_params_fields p =
    ("contacts", always (texts p.contacts))
    ∷ ("add_campaigns", filled (texts p.add_campaigns))
    ∷ ("remove_campaigns", filled (texts p.remove_campaigns))
    ∷ ("add_categories", filled (texts p.add_categories))
    ∷ ("remove_categories", filled (texts p.remove_categories))
    ∷ ("fields", set_only json p.fields)
    ∷ ("subscribe", set_only flag p.subscribe)
    ∷ []

pub record ContactVerificationParams : Type 0 where
  pub action : Bytes
  pub contacts : List Bytes
  pub campaign_id : Bytes

unfoldable pub contact_verification_params_fields : ContactVerificationParams → Fields
contact_verification_params_fields p =
    ("action", always (text p.action))
    ∷ ("contacts", filled (texts p.contacts))
    ∷ ("campaign_id", filled (text p.campaign_id))
    ∷ []
