-- ===== src/Services/Params.antt =====
-- The queries of the list methods: each parameter type's `values` (advisor.go, apikeys.go, auditlogs.go,
-- campaigns.go, contacts.go, crm.go, emails.go, integrations.go, suppressions.go, unibox.go, warmup.go,
-- webhooks.go).
pub mod Filters
use warmbly_go.Common.{Bool, Option, none, some, List, [], ◌∷◌, if◌then◌else◌}
use warmbly_go.Common.Int.{ℤ}
use warmbly_go.Common.Text.{Bytes, codes}
use warmbly_go.Services.Query.{
  Query, Format, ListOptions, apply, set, set_non_empty, set_positive, set_bool, set_time, set_csv,
  format_day, join,
}

-- `AdvisorListParams` (advisor.go), with the fields that go into the query.
pub record AdvisorListParams : Type 0 where
  pub surface : Bytes
  pub category : Bytes
  pub entity_type : Bytes
  pub entity_id : Bytes
  pub statuses : List Bytes
  pub limit : ℤ

unfoldable pub advisor_list_params_values :
    {T : Type 0} → Format T → Option AdvisorListParams → Query
advisor_list_params_values format none = []
advisor_list_params_values format (some p) =
    let q = [] in
    let q = set_non_empty q "surface" p.surface in
    let q = set_non_empty q "category" p.category in
    let q = set_non_empty q "entity_type" p.entity_type in
    let q = set_non_empty q "entity_id" p.entity_id in
    let q = set_csv q "status" p.statuses in set_positive format q "limit" p.limit

-- `APIKeyAnalyticsParams` (apikeys.go), with the fields that go into the query.
pub record ApiKeyAnalyticsParams (T : Type 0) : Type 0 where
  pub from : T
  pub to : T
  pub interval : Bytes

unfoldable pub api_key_analytics_params_values :
    {T : Type 0} → Format T → Option (ApiKeyAnalyticsParams T) → Query
api_key_analytics_params_values format none = []
api_key_analytics_params_values format (some p) =
    let q = [] in
    let q = set_time format q "from" (some p.from) in
    let q = set_time format q "to" (some p.to) in set_non_empty q "interval" p.interval

-- `AuditLogListParams` (auditlogs.go), with the fields that go into the query.
pub record AuditLogListParams (T : Type 0) : Type 0 where
  pub options : ListOptions
  pub actor_id : Bytes
  pub entity_id : Bytes
  pub entity_type : Bytes
  pub action : Bytes
  pub date : T
  pub start_date : T
  pub end_date : T

unfoldable pub audit_log_list_params_values :
    {T : Type 0} → Format T → Option (AuditLogListParams T) → Query
audit_log_list_params_values format none = []
audit_log_list_params_values format (some p) =
    let q = [] in
    let q = apply format (some p.options) q in
    let q = set_non_empty q "actor_id" p.actor_id in
    let q = set_non_empty q "entity_id" p.entity_id in
    let q = set_non_empty q "entity_type" p.entity_type in
    let q = set_non_empty q "action" p.action in
    let q = set_non_empty q "date" (format_day format p.date) in
    let q = set_time format q "start_date" (some p.start_date) in
    set_time format q "end_date" (some p.end_date)

-- `CampaignListParams` (campaigns.go), with the fields that go into the query.
pub record CampaignListParams : Type 0 where
  pub options : ListOptions
  pub query : Bytes
  pub folder : Bytes
  pub status : Bytes
  pub kind : Bytes

unfoldable pub campaign_list_params_values :
    {T : Type 0} → Format T → Option CampaignListParams → Query
campaign_list_params_values format none = []
campaign_list_params_values format (some p) =
    let q = [] in
    let q = apply format (some p.options) q in
    let q = set_non_empty q "q" p.query in
    let q = set_non_empty q "folder" p.folder in
    let q = set_non_empty q "status" p.status in set_non_empty q "kind" p.kind

-- `TimelineParams` (contacts.go), with the fields that go into the query.
pub record TimelineParams (T : Type 0) : Type 0 where
  pub options : ListOptions
  pub before : Option T

unfoldable pub timeline_params_values : {T : Type 0} → Format T → Option (TimelineParams T) → Query
timeline_params_values format none = []
timeline_params_values format (some p) =
    let q = [] in let q = apply format (some p.options) q in set_time format q "before" p.before

-- `DealListParams` (crm.go), with the fields that go into the query.
pub record DealListParams : Type 0 where
  pub options : ListOptions
  pub pipeline_id : Bytes
  pub stage_id : Bytes
  pub status : Bytes

unfoldable pub deal_list_params_values : {T : Type 0} → Format T → Option DealListParams → Query
deal_list_params_values format none = []
deal_list_params_values format (some p) =
    let q = [] in
    let q = apply format (some p.options) q in
    let q = set_non_empty q "pipeline_id" p.pipeline_id in
    let q = set_non_empty q "stage_id" p.stage_id in set_non_empty q "status" p.status

-- `CRMTaskListParams` (crm.go), with the fields that go into the query.
pub record CrmTaskListParams : Type 0 where
  pub options : ListOptions
  pub contact_id : Bytes
  pub deal_id : Bytes
  pub assigned_to : Bytes
  pub status : Bytes

unfoldable pub crm_task_list_params_values :
    {T : Type 0} → Format T → Option CrmTaskListParams → Query
crm_task_list_params_values format none = []
crm_task_list_params_values format (some p) =
    let q = [] in
    let q = apply format (some p.options) q in
    let q = set_non_empty q "contact_id" p.contact_id in
    let q = set_non_empty q "deal_id" p.deal_id in
    let q = set_non_empty q "assigned_to" p.assigned_to in set_non_empty q "status" p.status

-- `EmailListParams` (emails.go), with the fields that go into the query.
pub record EmailListParams : Type 0 where
  pub options : ListOptions
  pub query : Bytes
  pub tag : Bytes

unfoldable pub email_list_params_values : {T : Type 0} → Format T → Option EmailListParams → Query
email_list_params_values format none = []
email_list_params_values format (some p) =
    let q = [] in
    let q = apply format (some p.options) q in
    let q = set_non_empty q "q" p.query in set_non_empty q "tag" p.tag

-- `MeetingListParams` (integrations.go), with the fields that go into the query.
pub record MeetingListParams : Type 0 where
  pub options : ListOptions
  pub timeframe : Bytes
  pub status : Bytes
  pub query : Bytes

unfoldable pub meeting_list_params_values :
    {T : Type 0} → Format T → Option MeetingListParams → Query
meeting_list_params_values format none = []
meeting_list_params_values format (some p) =
    let q = [] in
    let q = apply format (some p.options) q in
    let q = set_non_empty q "timeframe" p.timeframe in
    let q = set_non_empty q "status" p.status in set_non_empty q "q" p.query

-- `SuppressionListParams` (suppressions.go), with the fields that go into the query.
pub record SuppressionListParams : Type 0 where
  pub options : ListOptions
  pub query : Bytes

unfoldable pub suppression_list_params_values :
    {T : Type 0} → Format T → Option SuppressionListParams → Query
suppression_list_params_values format none = []
suppression_list_params_values format (some p) =
    let q = [] in let q = apply format (some p.options) q in set_non_empty q "q" p.query

-- `UniboxListParams` (unibox.go), with the fields that go into the query.
pub record UniboxListParams (T : Type 0) : Type 0 where
  pub options : ListOptions
  pub from : Bytes
  pub subject : Bytes
  pub address : Bytes
  pub direction : Bytes
  pub folder : Bytes
  pub unseen : Option Bool
  pub awaiting_reply : Option Bool
  pub agent_drafts : Option Bool
  pub uncategorized : Option Bool
  pub snoozed_any : Bool
  pub snoozed : Option Bool
  pub since : T
  pub until : T
  pub email_id : Bytes
  pub email_ids : List Bytes
  pub category_ids : List Bytes

unfoldable pub unibox_list_params_values :
    {T : Type 0} → Format T → Option (UniboxListParams T) → Query
unibox_list_params_values format none = []
unibox_list_params_values format (some p) =
    let q = [] in
    let q = apply format (some p.options) q in
    let q = set_non_empty q "from" p.from in
    let q = set_non_empty q "subject" p.subject in
    let q = set_non_empty q "address" p.address in
    let q = set_non_empty q "direction" p.direction in
    let q = set_non_empty q "folder" p.folder in
    let q = set_bool q "unseen" p.unseen in
    let q = set_bool q "awaiting_reply" p.awaiting_reply in
    let q = set_bool q "agent_drafts" p.agent_drafts in
    let q = set_bool q "uncategorized" p.uncategorized in
    let q =
      (if p.snoozed_any then set q "snoozed" (codes "any") else set_bool q "snoozed" p.snoozed) in
    let q = set_non_empty q "since" (format_day format p.since) in
    let q = set_non_empty q "until" (format_day format p.until) in
    let q = set_non_empty q "email_id" p.email_id in
    let q = set_non_empty q "email_ids" (join p.email_ids (codes ",")) in
    set_non_empty q "category_ids" (join p.category_ids (codes ","))

-- `DeadLetterListParams` (warmup.go), with the fields that go into the query.
pub record DeadLetterListParams : Type 0 where
  pub status : Bytes
  pub limit : ℤ

unfoldable pub dead_letter_list_params_values :
    {T : Type 0} → Format T → Option DeadLetterListParams → Query
dead_letter_list_params_values format none = []
dead_letter_list_params_values format (some p) =
    let q = [] in let q = set_non_empty q "status" p.status in set_positive format q "limit" p.limit

-- `WebhookDeliveryListParams` (webhooks.go), with the fields that go into the query.
pub record WebhookDeliveryListParams : Type 0 where
  pub options : ListOptions
  pub endpoint_id : Bytes
  pub status : Bytes
  pub event_type : Bytes

unfoldable pub webhook_delivery_list_params_values :
    {T : Type 0} → Format T → Option WebhookDeliveryListParams → Query
webhook_delivery_list_params_values format none = []
webhook_delivery_list_params_values format (some p) =
    let q = [] in
    let q = apply format (some p.options) q in
    let q = set_non_empty q "endpoint_id" p.endpoint_id in
    let q = set_non_empty q "status" p.status in set_non_empty q "event_type" p.event_type
