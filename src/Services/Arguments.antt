-- ===== src/Services/Arguments.antt =====
-- The arguments that the table of all calls is taken at.
use warmbly_go.Common.{Bool, Option, List}
use warmbly_go.Common.Int.{ℤ}
use warmbly_go.Common.Text.{Bytes}
use warmbly_go.Services.Query.{ListOptions}
use warmbly_go.Services.Params.{
  AdvisorListParams, ApiKeyAnalyticsParams, AuditLogListParams, CampaignListParams, TimelineParams,
  DealListParams, CrmTaskListParams, EmailListParams, MeetingListParams, SuppressionListParams,
  UniboxListParams, DeadLetterListParams, WebhookDeliveryListParams,
}

-- Arguments for the paths and queries of all methods; a method's texts are `x`, `y`, `z` and `w`.
pub record Arguments (T : Type 0) : Type 0 where
  pub x : Bytes
  pub y : Bytes
  pub z : Bytes
  pub w : Bytes
  pub words : List Bytes
  pub more_words : List Bytes
  pub number : ℤ
  pub flag : Bool
  pub time : T
  pub other_time : T
  pub payload : Option Bytes
  pub options : Option ListOptions
  pub advisor_list_params : Option AdvisorListParams
  pub api_key_analytics_params : Option (ApiKeyAnalyticsParams T)
  pub audit_log_list_params : Option (AuditLogListParams T)
  pub campaign_list_params : Option CampaignListParams
  pub timeline_params : Option (TimelineParams T)
  pub deal_list_params : Option DealListParams
  pub crm_task_list_params : Option CrmTaskListParams
  pub email_list_params : Option EmailListParams
  pub meeting_list_params : Option MeetingListParams
  pub suppression_list_params : Option SuppressionListParams
  pub unibox_list_params : Option (UniboxListParams T)
  pub dead_letter_list_params : Option DeadLetterListParams
  pub webhook_delivery_list_params : Option WebhookDeliveryListParams
