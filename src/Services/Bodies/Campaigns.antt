-- ===== src/Services/Bodies/Campaigns.antt =====
-- The parameters that methods of campaigns.go send as a JSON object, and the fields of that object.
use warmbly_go.Common.{Bool, Option, List, [], ◌∷◌}
use warmbly_go.Common.Int.{ℤ}
use warmbly_go.Common.Text.{Bytes}
use warmbly_go.Services.Call.{
  text, texts, number, flag, json, always, filled, set_only, nullable_date, Fields,
}

pub record CampaignEstimateParams : Type 0 where
  pub segment_ids : List Bytes
  pub email_tag_ids : List Bytes
  pub daily_limit : Option ℤ
  pub days : Option ℤ
  pub timezone : Option Bytes
  pub start_date : Option Bytes

unfoldable pub campaign_estimate_params_fields : CampaignEstimateParams → Fields
campaign_estimate_params_fields p =
    ("segment_ids", always (texts p.segment_ids))
    ∷ ("email_tag_ids", filled (texts p.email_tag_ids))
    ∷ ("daily_limit", set_only number p.daily_limit)
    ∷ ("days", set_only number p.days)
    ∷ ("timezone", set_only text p.timezone)
    ∷ ("start_date", set_only json p.start_date)
    ∷ []

pub record CampaignDuplicateParams : Type 0 where
  pub name : Bytes

unfoldable pub campaign_duplicate_params_fields : CampaignDuplicateParams → Fields
campaign_duplicate_params_fields p = ("name", filled (text p.name)) ∷ []

pub record CampaignStartParams : Type 0 where
  pub acknowledge_list_risk : Bool

unfoldable pub campaign_start_params_fields : CampaignStartParams → Fields
campaign_start_params_fields p =
    ("acknowledge_list_risk", always (flag p.acknowledge_list_risk)) ∷ []

pub record CampaignCreateParams : Type 0 where
  pub name : Bytes
  pub description : Bytes
  pub kind : Option Bytes
  pub stop_on_reply : Option Bool
  pub open_tracking : Option Bool
  pub link_tracking : Option Bool
  pub text_only : Option Bool
  pub daily_limit : Option ℤ
  pub unsubscribe_header : Option Bool
  pub risky_emails : Option Bool
  pub unsubscribe_mode : Option Bytes
  pub cc_arg : List Bytes
  pub bcc : List Bytes
  pub start_date : Option Bytes
  pub end_date : Option Bytes
  pub timezone : Option Bytes
  pub days : Option ℤ
  pub start_time : Option Bytes
  pub end_time : Option Bytes
  pub schedule_windows : Option Bytes
  pub email_tag_ids : List Bytes
  pub folder_ids : List Bytes
  pub sender_strategy : Option Bytes
  pub rotation_mode : Option Bytes
  pub senders : Option Bytes
  pub ramp_enabled : Option Bool
  pub ramp_start : Option ℤ
  pub ramp_increment : Option ℤ
  pub ramp_ceiling : Option ℤ
  pub esp_match_mode : Option Bytes
  pub max_new_leads_per_day : Option ℤ
  pub prioritize_new_leads : Option Bool
  pub continuous : Option Bool
  pub tracking_domain : Option Bytes
  pub utm_tracking : Option Bool
  pub utm_source : Option Bytes
  pub utm_medium : Option Bytes
  pub utm_campaign : Option Bytes
  pub steps : Option Bytes
  pub variants : Option Bytes
  pub advanced_overrides : Option Bytes

unfoldable pub campaign_create_params_fields : CampaignCreateParams → Fields
campaign_create_params_fields p =
    ("name", always (text p.name))
    ∷ ("description", filled (text p.description))
    ∷ ("kind", set_only text p.kind)
    ∷ ("stop_on_reply", set_only flag p.stop_on_reply)
    ∷ ("open_tracking", set_only flag p.open_tracking)
    ∷ ("link_tracking", set_only flag p.link_tracking)
    ∷ ("text_only", set_only flag p.text_only)
    ∷ ("daily_limit", set_only number p.daily_limit)
    ∷ ("unsubscribe_header", set_only flag p.unsubscribe_header)
    ∷ ("risky_emails", set_only flag p.risky_emails)
    ∷ ("unsubscribe_mode", set_only text p.unsubscribe_mode)
    ∷ ("cc", filled (texts p.cc_arg))
    ∷ ("bcc", filled (texts p.bcc))
    ∷ ("start_date", set_only json p.start_date)
    ∷ ("end_date", set_only json p.end_date)
    ∷ ("timezone", set_only text p.timezone)
    ∷ ("days", set_only number p.days)
    ∷ ("start_time", set_only text p.start_time)
    ∷ ("end_time", set_only text p.end_time)
    ∷ ("schedule_windows", set_only json p.schedule_windows)
    ∷ ("email_tag_ids", filled (texts p.email_tag_ids))
    ∷ ("folder_ids", filled (texts p.folder_ids))
    ∷ ("sender_strategy", set_only text p.sender_strategy)
    ∷ ("rotation_mode", set_only text p.rotation_mode)
    ∷ ("senders", set_only json p.senders)
    ∷ ("ramp_enabled", set_only flag p.ramp_enabled)
    ∷ ("ramp_start", set_only number p.ramp_start)
    ∷ ("ramp_increment", set_only number p.ramp_increment)
    ∷ ("ramp_ceiling", set_only number p.ramp_ceiling)
    ∷ ("esp_match_mode", set_only text p.esp_match_mode)
    ∷ ("max_new_leads_per_day", set_only number p.max_new_leads_per_day)
    ∷ ("prioritize_new_leads", set_only flag p.prioritize_new_leads)
    ∷ ("continuous", set_only flag p.continuous)
    ∷ ("tracking_domain", set_only text p.tracking_domain)
    ∷ ("utm_tracking", set_only flag p.utm_tracking)
    ∷ ("utm_source", set_only text p.utm_source)
    ∷ ("utm_medium", set_only text p.utm_medium)
    ∷ ("utm_campaign", set_only text p.utm_campaign)
    ∷ ("steps", set_only json p.steps)
    ∷ ("variants", set_only json p.variants)
    ∷ ("advanced_overrides", set_only json p.advanced_overrides)
    ∷ []

pub record CampaignUpdateParams : Type 0 where
  pub name : Option Bytes
  pub description : Option Bytes
  pub status : Option Bytes
  pub stop_on_reply : Option Bool
  pub open_tracking : Option Bool
  pub link_tracking : Option Bool
  pub text_only : Option Bool
  pub daily_limit : Option ℤ
  pub unsubscribe_header : Option Bool
  pub risky_emails : Option Bool
  pub unsubscribe_mode : Option Bytes
  pub cc_arg : List Bytes
  pub bcc : List Bytes
  pub start_date : Option Bytes
  pub end_date : Option Bytes
  pub clear_start_date : Bool
  pub clear_end_date : Bool
  pub timezone : Option Bytes
  pub days : Option ℤ
  pub start_time : Option Bytes
  pub end_time : Option Bytes
  pub schedule_windows : Option Bytes
  pub email_tags : List Bytes
  pub folders : List Bytes
  pub contact_order_by : Option Bytes
  pub contact_order_dir : Option Bytes
  pub contact_order_field : Option Bytes
  pub sender_strategy : Option Bytes
  pub rotation_mode : Option Bytes
  pub ramp_enabled : Option Bool
  pub ramp_start : Option ℤ
  pub ramp_increment : Option ℤ
  pub ramp_ceiling : Option ℤ
  pub esp_match_mode : Option Bytes
  pub max_new_leads_per_day : Option ℤ
  pub prioritize_new_leads : Option Bool
  pub continuous : Option Bool
  pub tracking_domain : Option Bytes
  pub utm_tracking : Option Bool
  pub utm_source : Option Bytes
  pub utm_medium : Option Bytes
  pub utm_campaign : Option Bytes
  pub guardrail_enabled : Option Bool
  pub guardrail_bounce_rate_max : Option Bytes
  pub guardrail_complaint_rate_max : Option Bytes
  pub guardrail_reply_rate_min : Option Bytes
  pub guardrail_min_sample : Option ℤ
  pub guardrail_window_days : Option ℤ

unfoldable pub campaign_update_params_fields : CampaignUpdateParams → Fields
campaign_update_params_fields p =
    ("name", set_only text p.name)
    ∷ ("description", set_only text p.description)
    ∷ ("status", set_only text p.status)
    ∷ ("stop_on_reply", set_only flag p.stop_on_reply)
    ∷ ("open_tracking", set_only flag p.open_tracking)
    ∷ ("link_tracking", set_only flag p.link_tracking)
    ∷ ("text_only", set_only flag p.text_only)
    ∷ ("daily_limit", set_only number p.daily_limit)
    ∷ ("unsubscribe_header", set_only flag p.unsubscribe_header)
    ∷ ("risky_emails", set_only flag p.risky_emails)
    ∷ ("unsubscribe_mode", set_only text p.unsubscribe_mode)
    ∷ ("cc", filled (texts p.cc_arg))
    ∷ ("bcc", filled (texts p.bcc))
    ∷ ("start_date", nullable_date p.start_date p.clear_start_date)
    ∷ ("end_date", nullable_date p.end_date p.clear_end_date)
    ∷ ("timezone", set_only text p.timezone)
    ∷ ("days", set_only number p.days)
    ∷ ("start_time", set_only text p.start_time)
    ∷ ("end_time", set_only text p.end_time)
    ∷ ("schedule_windows", set_only json p.schedule_windows)
    ∷ ("email_tags", filled (texts p.email_tags))
    ∷ ("folders", filled (texts p.folders))
    ∷ ("contact_order_by", set_only text p.contact_order_by)
    ∷ ("contact_order_dir", set_only text p.contact_order_dir)
    ∷ ("contact_order_field", set_only text p.contact_order_field)
    ∷ ("sender_strategy", set_only text p.sender_strategy)
    ∷ ("rotation_mode", set_only text p.rotation_mode)
    ∷ ("ramp_enabled", set_only flag p.ramp_enabled)
    ∷ ("ramp_start", set_only number p.ramp_start)
    ∷ ("ramp_increment", set_only number p.ramp_increment)
    ∷ ("ramp_ceiling", set_only number p.ramp_ceiling)
    ∷ ("esp_match_mode", set_only text p.esp_match_mode)
    ∷ ("max_new_leads_per_day", set_only number p.max_new_leads_per_day)
    ∷ ("prioritize_new_leads", set_only flag p.prioritize_new_leads)
    ∷ ("continuous", set_only flag p.continuous)
    ∷ ("tracking_domain", set_only text p.tracking_domain)
    ∷ ("utm_tracking", set_only flag p.utm_tracking)
    ∷ ("utm_source", set_only text p.utm_source)
    ∷ ("utm_medium", set_only text p.utm_medium)
    ∷ ("utm_campaign", set_only text p.utm_campaign)
    ∷ ("guardrail_enabled", set_only flag p.guardrail_enabled)
    ∷ ("guardrail_bounce_rate_max", set_only json p.guardrail_bounce_rate_max)
    ∷ ("guardrail_complaint_rate_max", set_only json p.guardrail_complaint_rate_max)
    ∷ ("guardrail_reply_rate_min", set_only json p.guardrail_reply_rate_min)
    ∷ ("guardrail_min_sample", set_only number p.guardrail_min_sample)
    ∷ ("guardrail_window_days", set_only number p.guardrail_window_days)
    ∷ []
