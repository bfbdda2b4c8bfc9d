-- ===== src/Services/Bodies/Crm.antt =====
-- The parameters that methods of crm.go send as a JSON object, and the fields of that object.
use warmbly_go.Common.{Option, [], ◌∷◌}
use warmbly_go.Common.Int.{ℤ}
use warmbly_go.Common.Text.{Bytes}
use warmbly_go.Services.Call.{text, number, json, always, filled, set_only, Fields}

pub record PipelineCreateParams : Type 0 where
  pub name : Bytes
  pub stages : Option Bytes

unfoldable pub pipeline_create_params_fields : PipelineCreateParams → Fields
pipeline_create_params_fields p =
    ("name", always (text p.name)) ∷ ("stages", set_only json p.stages) ∷ []

pub record StageCreateParams : Type 0 where
  pub name : Bytes
  pub color : Bytes

unfoldable pub stage_create_params_fields : StageCreateParams → Fields
stage_create_params_fields p =
    ("name", always (text p.name)) ∷ ("color", always (text p.color)) ∷ []

pub record PipelineUpdateParams : Type 0 where
  pub name : Option Bytes

unfoldable pub pipeline_update_params_fields : PipelineUpdateParams → Fields
pipeline_update_params_fields p = ("name", set_only text p.name) ∷ []

pub record StageUpdateParams : Type 0 where
  pub name : Option Bytes
  pub color : Option Bytes

unfoldable pub stage_update_params_fields : StageUpdateParams → Fields
stage_update_params_fields p =
    ("name", set_only text p.name) ∷ ("color", set_only text p.color) ∷ []

pub record DealCreateParams : Type 0 where
  pub pipeline_id : Bytes
  pub stage_id : Bytes
  pub contact_id : Option Bytes
  pub name : Bytes
  pub value : Option Bytes
  pub currency : Bytes
  pub expected_close_date : Option Bytes
  pub assigned_to : Option Bytes
  pub campaign_id : Option Bytes
  pub source_mailbox_id : Option Bytes

unfoldable pub deal_create_params_fields : DealCreateParams → Fields
deal_create_params_fields p =
    ("pipeline_id", always (text p.pipeline_id))
    ∷ ("stage_id", always (text p.stage_id))
    ∷ ("contact_id", set_only text p.contact_id)
    ∷ ("name", always (text p.name))
    ∷ ("value", set_only json p.value)
    ∷ ("currency", filled (text p.currency))
    ∷ ("expected_close_date", set_only json p.expected_close_date)
    ∷ ("assigned_to", set_only text p.assigned_to)
    ∷ ("campaign_id", set_only text p.campaign_id)
    ∷ ("source_mailbox_id", set_only text p.source_mailbox_id)
    ∷ []

pub record DealUpdateParams : Type 0 where
  pub stage_id : Option Bytes
  pub contact_id : Option Bytes
  pub name : Option Bytes
  pub value : Option Bytes
  pub currency : Option Bytes
  pub status : Option Bytes
  pub expected_close_date : Option Bytes
  pub lost_reason : Option Bytes
  pub assigned_to : Option Bytes

unfoldable pub deal_update_params_fields : DealUpdateParams → Fields
deal_update_params_fields p =
    ("stage_id", set_only text p.stage_id)
    ∷ ("contact_id", set_only text p.contact_id)
    ∷ ("name", set_only text p.name)
    ∷ ("value", set_only json p.value)
    ∷ ("currency", set_only text p.currency)
    ∷ ("status", set_only text p.status)
    ∷ ("expected_close_date", set_only json p.expected_close_date)
    ∷ ("lost_reason", set_only text p.lost_reason)
    ∷ ("assigned_to", set_only text p.assigned_to)
    ∷ []

pub record TaskTypeCreateParams : Type 0 where
  pub name : Bytes
  pub color : Bytes

unfoldable pub task_type_create_params_fields : TaskTypeCreateParams → Fields
task_type_create_params_fields p =
    ("name", always (text p.name)) ∷ ("color", filled (text p.color)) ∷ []

pub record TaskTypeUpdateParams : Type 0 where
  pub name : Option Bytes
  pub color : Option Bytes
  pub position : Option ℤ

unfoldable pub task_type_update_params_fields : TaskTypeUpdateParams → Fields
task_type_update_params_fields p =
    ("name", set_only text p.name)
    ∷ ("color", set_only text p.color)
    ∷ ("position", set_only number p.position)
    ∷ []

pub record CrmTaskCreateParams : Type 0 where
  pub contact_id : Option Bytes
  pub deal_id : Option Bytes
  pub assigned_to : Option Bytes
  pub assigned_team_id : Option Bytes
  pub title : Bytes
  pub description : Option Bytes
  pub due_date : Option Bytes
  pub priority : Bytes
  pub type : Bytes

unfoldable pub crm_task_create_params_fields : CrmTaskCreateParams → Fields
crm_task_create_params_fields p =
    ("contact_id", set_only text p.contact_id)
    ∷ ("deal_id", set_only text p.deal_id)
    ∷ ("assigned_to", set_only text p.assigned_to)
    ∷ ("assigned_team_id", set_only text p.assigned_team_id)
    ∷ ("title", always (text p.title))
    ∷ ("description", set_only text p.description)
    ∷ ("due_date", set_only json p.due_date)
    ∷ ("priority", filled (text p.priority))
    ∷ ("type", filled (text p.type))
    ∷ []

pub record CrmTaskUpdateParams : Type 0 where
  pub assigned_to : Option Bytes
  pub assigned_team_id : Option Bytes
  pub title : Option Bytes
  pub description : Option Bytes
  pub due_date : Option Bytes
  pub priority : Option Bytes
  pub type : Option Bytes
  pub status : Option Bytes

unfoldable pub crm_task_update_params_fields : CrmTaskUpdateParams → Fields
crm_task_update_params_fields p =
    ("assigned_to", set_only text p.assigned_to)
    ∷ ("assigned_team_id", set_only text p.assigned_team_id)
    ∷ ("title", set_only text p.title)
    ∷ ("description", set_only text p.description)
    ∷ ("due_date", set_only json p.due_date)
    ∷ ("priority", set_only text p.priority)
    ∷ ("type", set_only text p.type)
    ∷ ("status", set_only text p.status)
    ∷ []
