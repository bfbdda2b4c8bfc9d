-- ===== src/Services/Bodies/Unibox.antt =====
-- The parameters that methods of unibox.go send as a JSON object, and the fields of that object.
use warmbly_go.Common.{Option, List, [], ◌∷◌}
use warmbly_go.Common.Text.{Bytes}
use warmbly_go.Services.Call.{text, texts, json, always, filled, set_only, Fields}

pub record UniboxReplyParams : Type 0 where
  pub email_account_id : Bytes
  pub to : List Bytes
  pub cc_arg : List Bytes
  pub bcc : List Bytes
  pub subject : Bytes
  pub body_html : Bytes
  pub body_plain : Bytes
  pub in_reply_to : List Bytes
  pub thread_id : Bytes
  pub send_mode : Bytes
  pub scheduled_at : Option Bytes

unfoldable pub unibox_reply_params_fields : UniboxReplyParams → Fields
unibox_reply_params_fields p =
    ("email_account_id", always (text p.email_account_id))
    ∷ ("to", always (texts p.to))
    ∷ ("cc", filled (texts p.cc_arg))
    ∷ ("bcc", filled (texts p.bcc))
    ∷ ("subject", always (text p.subject))
    ∷ ("body_html", filled (text p.body_html))
    ∷ ("body_plain", filled (text p.body_plain))
    ∷ ("in_reply_to", filled (texts p.in_reply_to))
    ∷ ("thread_id", filled (text p.thread_id))
    ∷ ("send_mode", filled (text p.send_mode))
    ∷ ("scheduled_at", set_only json p.scheduled_at)
    ∷ []

pub record UniboxComposeParams : Type 0 where
  pub email_account_id : Bytes
  pub from_tag_id : Bytes
  pub to : List Bytes
  pub cc_arg : List Bytes
  pub bcc : List Bytes
  pub subject : Bytes
  pub body_html : Bytes
  pub body_plain : Bytes
  pub send_mode : Bytes
  pub scheduled_at : Option Bytes

unfoldable pub unibox_compose_params_fields : UniboxComposeParams → Fields
unibox_compose_params_fields p =
    ("email_account_id", filled (text p.email_account_id))
    ∷ ("from_tag_id", filled (text p.from_tag_id))
    ∷ ("to", always (texts p.to))
    ∷ ("cc", filled (texts p.cc_arg))
    ∷ ("bcc", filled (texts p.bcc))
    ∷ ("subject", always (text p.subject))
    ∷ ("body_html", filled (text p.body_html))
    ∷ ("body_plain", filled (text p.body_plain))
    ∷ ("send_mode", filled (text p.send_mode))
    ∷ ("scheduled_at", set_only json p.scheduled_at)
    ∷ []

pub record ComposeDraftParams : Type 0 where
  pub email_account_id : Bytes
  pub to : List Bytes
  pub cc_arg : List Bytes
  pub bcc : List Bytes
  pub subject : Bytes
  pub body : Bytes

unfoldable pub compose_draft_params_fields : ComposeDraftParams → Fields
compose_draft_params_fields p =
    ("email_account_id", filled (text p.email_account_id))
    ∷ ("to", filled (texts p.to))
    ∷ ("cc", filled (texts p.cc_arg))
    ∷ ("bcc", filled (texts p.bcc))
    ∷ ("subject", filled (text p.subject))
    ∷ ("body", filled (text p.body))
    ∷ []
