-- ===== src/Services/Crm.antt =====
-- The requests of `CRMService` (crm.go), one definition for each method.
use warmbly_go.Common.{List, [], Option, none, ◌∷◌}
use warmbly_go.Common.Text.{Bytes}
use warmbly_go.Services.Call.{
  Call, post, patch, delete, lit, esc, bodiless, given, discarded, at, call, fetch, fetch_data,
  send, list_json, encoded,
}
use warmbly_go.Services.Query.{Format}
use warmbly_go.Services.Arguments.{Arguments}
use warmbly_go.Services.Bodies.Crm.{
  CrmTaskCreateParams, CrmTaskUpdateParams, DealCreateParams, DealUpdateParams,
  PipelineCreateParams, PipelineUpdateParams, StageCreateParams, StageUpdateParams,
  TaskTypeCreateParams, TaskTypeUpdateParams, crm_task_create_params_fields,
  crm_task_update_params_fields, deal_create_params_fields, deal_update_params_fields,
  pipeline_create_params_fields, pipeline_update_params_fields, stage_create_params_fields,
  stage_update_params_fields, task_type_create_params_fields, task_type_update_params_fields,
}
use warmbly_go.Services.Params.{
  DealListParams, deal_list_params_values, CrmTaskListParams, crm_task_list_params_values,
}

abbrev pub list_pipelines : Call
list_pipelines = fetch_data (at (lit "crm/pipelines" ∷ []))

abbrev pub create_pipeline : Option PipelineCreateParams → Call
create_pipeline params =
    send post (at (lit "crm/pipelines" ∷ [])) (encoded pipeline_create_params_fields params)

abbrev pub get_pipeline : Bytes → Call
get_pipeline id = fetch (at (lit "crm/pipelines/" ∷ esc id ∷ []))

abbrev pub update_pipeline : Bytes → Option PipelineUpdateParams → Call
update_pipeline id params =
    send patch (at (lit "crm/pipelines/" ∷ esc id ∷ []))
      (encoded pipeline_update_params_fields params)

abbrev pub delete_pipeline : Bytes → Call
delete_pipeline id = call delete (at (lit "crm/pipelines/" ∷ esc id ∷ [])) bodiless discarded

abbrev pub create_stage : Bytes → Option StageCreateParams → Call
create_stage pipeline_id params =
    send post (at (lit "crm/pipelines/" ∷ esc pipeline_id ∷ lit "/stages" ∷ []))
      (encoded stage_create_params_fields params)

abbrev pub update_stage : Bytes → Bytes → Option StageUpdateParams → Call
update_stage pipeline_id stage_id params =
    send patch (at (lit "crm/pipelines/" ∷ esc pipeline_id ∷ lit "/stages/" ∷ esc stage_id ∷ []))
      (encoded stage_update_params_fields params)

abbrev pub delete_stage : Bytes → Bytes → Call
delete_stage pipeline_id stage_id =
    call delete (at (lit "crm/pipelines/" ∷ esc pipeline_id ∷ lit "/stages/" ∷ esc stage_id ∷ []))
      bodiless discarded

abbrev pub list_deals : {T : Type 0} → Format T → Option DealListParams → Call
list_deals format params = list_json (lit "crm/deals" ∷ []) (deal_list_params_values format params)

abbrev pub deals_summary : Option Bytes → Call
deals_summary params = send post (at (lit "crm/deals/summary" ∷ [])) (given params)

abbrev pub create_deal : Option DealCreateParams → Call
create_deal params =
    send post (at (lit "crm/deals" ∷ [])) (encoded deal_create_params_fields params)

abbrev pub get_deal : Bytes → Call
get_deal id = fetch (at (lit "crm/deals/" ∷ esc id ∷ []))

abbrev pub update_deal : Bytes → Option DealUpdateParams → Call
update_deal id params =
    send patch (at (lit "crm/deals/" ∷ esc id ∷ [])) (encoded deal_update_params_fields params)

abbrev pub delete_deal : Bytes → Call
delete_deal id = call delete (at (lit "crm/deals/" ∷ esc id ∷ [])) bodiless discarded

abbrev pub list_task_types : Call
list_task_types = fetch_data (at (lit "crm/task-types" ∷ []))

abbrev pub create_task_type : Option TaskTypeCreateParams → Call
create_task_type params =
    send post (at (lit "crm/task-types" ∷ [])) (encoded task_type_create_params_fields params)

abbrev pub update_task_type : Bytes → Option TaskTypeUpdateParams → Call
update_task_type id params =
    send patch (at (lit "crm/task-types/" ∷ esc id ∷ []))
      (encoded task_type_update_params_fields params)

abbrev pub delete_task_type : Bytes → Call
delete_task_type id = call delete (at (lit "crm/task-types/" ∷ esc id ∷ [])) bodiless discarded

abbrev pub list_tasks : {T : Type 0} → Format T → Option CrmTaskListParams → Call
list_tasks format params =
    list_json (lit "crm/tasks" ∷ []) (crm_task_list_params_values format params)

abbrev pub tasks_summary : Option Bytes → Call
tasks_summary params = send post (at (lit "crm/tasks/summary" ∷ [])) (given params)

abbrev pub create_task : Option CrmTaskCreateParams → Call
create_task params =
    send post (at (lit "crm/tasks" ∷ [])) (encoded crm_task_create_params_fields params)

abbrev pub get_task : Bytes → Call
get_task id = fetch (at (lit "crm/tasks/" ∷ esc id ∷ []))

abbrev pub update_task : Bytes → Option CrmTaskUpdateParams → Call
update_task id params =
    send patch (at (lit "crm/tasks/" ∷ esc id ∷ [])) (encoded crm_task_update_params_fields params)

abbrev pub delete_task : Bytes → Call
delete_task id = call delete (at (lit "crm/tasks/" ∷ esc id ∷ [])) bodiless discarded

-- The calls of the methods above, at any arguments; a body that is a parameters object is left nil.
abbrev pub calls : {T : Type 0} → Format T → Arguments T → List Call
calls format a =
    (list_pipelines)
    ∷ (create_pipeline none)
    ∷ (get_pipeline a.x)
    ∷ (update_pipeline a.x none)
    ∷ (delete_pipeline a.x)
    ∷ (create_stage a.x none)
    ∷ (update_stage a.x a.y none)
    ∷ (delete_stage a.x a.y)
    ∷ (list_deals format a.deal_list_params)
    ∷ (deals_summary a.payload)
    ∷ (create_deal none)
    ∷ (get_deal a.x)
    ∷ (update_deal a.x none)
    ∷ (delete_deal a.x)
    ∷ (list_task_types)
    ∷ (create_task_type none)
    ∷ (update_task_type a.x none)
    ∷ (delete_task_type a.x)
    ∷ (list_tasks format a.crm_task_list_params)
    ∷ (tasks_summary a.payload)
    ∷ (create_task none)
    ∷ (get_task a.x)
    ∷ (update_task a.x none)
    ∷ (delete_task a.x)
    ∷ []
