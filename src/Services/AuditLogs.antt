-- ===== src/Services/AuditLogs.antt =====
-- The requests of `AuditLogService` (auditlogs.go), one definition for each method.
use warmbly_go.Common.{List, [], Option, ◌∷◌}
use warmbly_go.Services.Call.{Call, lit, list_json}
use warmbly_go.Services.Query.{Format}
use warmbly_go.Services.Arguments.{Arguments}
use warmbly_go.Services.Params.{AuditLogListParams, audit_log_list_params_values}

abbrev pub list : {T : Type 0} → Format T → Option (AuditLogListParams T) → Call
list format params = list_json (lit "audit-logs" ∷ []) (audit_log_list_params_values format params)

-- The calls of the methods above, at any arguments; a body that is a parameters object is left nil.
abbrev pub calls : {T : Type 0} → Format T → Arguments T → List Call
calls format a = (list format a.audit_log_list_params) ∷ []
