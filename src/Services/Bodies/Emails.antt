-- ===== src/Services/Bodies/Emails.antt =====
-- The parameters that methods of emails.go send as a JSON object, and the fields of that object.
use warmbly_go.Common.{Bool, Option, List, [], ◌∷◌}
use warmbly_go.Common.Int.{ℤ}
use warmbly_go.Common.Text.{Bytes}
use warmbly_go.Services.Call.{
  text, texts, number, flag, json, always, filled, set_only, or_null, Fields,
}

pub record SendEmailParams : Type 0 where
  pub to : List Bytes
  pub cc_arg : List Bytes
  pub bcc : List Bytes
  pub subject : Bytes
  pub body_html : Bytes
  pub body_plain : Bytes
  pub in_reply_to : List Bytes
  pub thread_id : Bytes
  pub send_mode : Bytes
  pub scheduled_at : Option Bytes

unfoldable pub send_email_params_fields : SendEmailParams → Fields
send_email_params_fields p =
    ("to", always (texts p.to))
    ∷ ("cc", filled (texts p.cc_arg))
    ∷ ("bcc", filled (texts p.bcc))
    ∷ ("subject", always (text p.subject))
    ∷ ("body_html", filled (text p.body_html))
    ∷ ("body_plain", filled (text p.body_plain))
    ∷ ("in_reply_to", filled (texts p.in_reply_to))
    ∷ ("thread_id", filled (text p.thread_id))
    ∷ ("send_mode", filled (text p.send_mode))
    ∷ ("scheduled_at", set_only json p.scheduled_at)
    ∷ []

pub record WarmupAppealParams : Type 0 where
  pub reason : Bytes

unfoldable pub warmup_appeal_params_fields : WarmupAppealParams → Fields
warmup_appeal_params_fields p = ("reason", always (text p.reason)) ∷ []

pub record EmailUpdateParams : Type 0 where
  pub name : Option Bytes
  pub signature_plain : Option Bytes
  pub signature_html : Option Bytes
  pub signature_sync : Option Bool
  pub signature_code : Option Bool
  pub status : Option Bytes
  pub campaign_limit : Option ℤ
  pub min_wait_time : Option ℤ
  pub reply_to : Option Bytes
  pub timezone : Option Bytes
  pub save_to_sent : Option Bool
  pub warmup : Option Bool
  pub warmup_base : Option ℤ
  pub warmup_max : Option ℤ
  pub warmup_increase : Option ℤ
  pub warmup_reply_rate : Option ℤ
  pub warmup_tag : Option Bytes
  pub warmup_start_time : Option Bytes
  pub warmup_end_time : Option Bytes
  pub warmup_days : Option ℤ
  pub tags : List Bytes

unfoldable pub email_update_params_fields : EmailUpdateParams → Fields
email_update_params_fields p =
    ("name", set_only text p.name)
    ∷ ("signature_plain", set_only text p.signature_plain)
    ∷ ("signature_html", set_only text p.signature_html)
    ∷ ("signature_sync", set_only flag p.signature_sync)
    ∷ ("signature_code", set_only flag p.signature_code)
    ∷ ("status", set_only text p.status)
    ∷ ("campaign_limit", set_only number p.campaign_limit)
    ∷ ("min_wait_time", set_only number p.min_wait_time)
    ∷ ("reply_to", set_only text p.reply_to)
    ∷ ("timezone", set_only text p.timezone)
    ∷ ("save_to_sent", set_only flag p.save_to_sent)
    ∷ ("warmup", set_only flag p.warmup)
    ∷ ("warmup_base", set_only number p.warmup_base)
    ∷ ("warmup_max", set_only number p.warmup_max)
    ∷ ("warmup_increase", set_only number p.warmup_increase)
    ∷ ("warmup_reply_rate", set_only number p.warmup_reply_rate)
    ∷ ("warmup_tag", set_only text p.warmup_tag)
    ∷ ("warmup_start_time", set_only text p.warmup_start_time)
    ∷ ("warmup_end_time", set_only text p.warmup_end_time)
    ∷ ("warmup_days", set_only number p.warmup_days)
    ∷ ("tags", filled (texts p.tags))
    ∷ []

pub record BulkTagParams : Type 0 where
  pub email_ids : List Bytes
  pub add_tags : List Bytes
  pub remove_tags : List Bytes

unfoldable pub bulk_tag_params_fields : BulkTagParams → Fields
bulk_tag_params_fields p =
    ("email_ids", always (texts p.email_ids))
    ∷ ("add_tags", filled (texts p.add_tags))
    ∷ ("remove_tags", filled (texts p.remove_tags))
    ∷ []

pub record SmtpImapParams : Type 0 where
  pub email : Bytes
  pub name : Bytes
  pub smtp : Option Bytes
  pub imap : Option Bytes

unfoldable pub smtp_imap_params_fields : SmtpImapParams → Fields
smtp_imap_params_fields p =
    ("email", always (text p.email))
    ∷ ("name", filled (text p.name))
    ∷ ("smtp", or_null json p.smtp)
    ∷ ("imap", or_null json p.imap)
    ∷ []

pub record SmtpImapCredentialsParams : Type 0 where
  pub smtp : Option Bytes
  pub imap : Option Bytes

unfoldable pub smtp_imap_credentials_params_fields : SmtpImapCredentialsParams → Fields
smtp_imap_credentials_params_fields p =
    ("smtp", or_null json p.smtp) ∷ ("imap", or_null json p.imap) ∷ []

pub record SmtpImapBulkParams : Type 0 where
  pub accounts : Option Bytes

unfoldable pub smtp_imap_bulk_params_fields : SmtpImapBulkParams → Fields
smtp_imap_bulk_params_fields p = ("accounts", or_null json p.accounts) ∷ []

pub record SendingBehaviorUpdateParams : Type 0 where
  pub enabled : Option Bool
  pub daily_limit_min : Option ℤ
  pub daily_limit_max : Option ℤ
  pub hourly_limit_min : Option ℤ
  pub hourly_limit_max : Option ℤ
  pub gap_min_seconds : Option ℤ
  pub gap_max_seconds : Option ℤ
  pub work_start_min : Option ℤ
  pub work_start_max : Option ℤ
  pub work_end_min : Option ℤ
  pub work_end_max : Option ℤ
  pub lunch_enabled : Option Bool
  pub lunch_earliest : Option ℤ
  pub lunch_latest : Option ℤ
  pub lunch_min_minutes : Option ℤ
  pub lunch_max_minutes : Option ℤ
  pub weekdays : Option ℤ

unfoldable pub sending_behavior_update_params_fields : SendingBehaviorUpdateParams → Fields
sending_behavior_update_params_fields p =
    ("enabled", set_only flag p.enabled)
    ∷ ("daily_limit_min", set_only number p.daily_limit_min)
    ∷ ("daily_limit_max", set_only number p.daily_limit_max)
    ∷ ("hourly_limit_min", set_only number p.hourly_limit_min)
    ∷ ("hourly_limit_max", set_only number p.hourly_limit_max)
    ∷ ("gap_min_seconds", set_only number p.gap_min_seconds)
    ∷ ("gap_max_seconds", set_only number p.gap_max_seconds)
    ∷ ("work_start_min", set_only number p.work_start_min)
    ∷ ("work_start_max", set_only number p.work_start_max)
    ∷ ("work_end_min", set_only number p.work_end_min)
    ∷ ("work_end_max", set_only number p.work_end_max)
    ∷ ("lunch_enabled", set_only flag p.lunch_enabled)
    ∷ ("lunch_earliest", set_only number p.lunch_earliest)
    ∷ ("lunch_latest", set_only number p.lunch_latest)
    ∷ ("lunch_min_minutes", set_only number p.lunch_min_minutes)
    ∷ ("lunch_max_minutes", set_only number p.lunch_max_minutes)
    ∷ ("weekdays", set_only number p.weekdays)
    ∷ []
