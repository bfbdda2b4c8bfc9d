-- ===== src/Services/Suppressions.antt =====
-- The requests of `SuppressionService` (suppressions.go), one definition for each method.
use warmbly_go.Common.{List, [], Option, ◌∷◌}
use warmbly_go.Common.Text.{Bytes}
use warmbly_go.Services.Call.{Call, delete, lit, esc, bodiless, discarded, at, call, list_json}
use warmbly_go.Services.Query.{Format}
use warmbly_go.Services.Arguments.{Arguments}
use warmbly_go.Services.Params.{SuppressionListParams, suppression_list_params_values}

abbrev pub list : {T : Type 0} → Format T → Option SuppressionListParams → Call
list format params =
    list_json (lit "suppressions" ∷ []) (suppression_list_params_values format params)

abbrev pub delete_call : Bytes → Call
delete_call id = call delete (at (lit "suppressions/" ∷ esc id ∷ [])) bodiless discarded

-- The calls of the methods above, at any arguments; a body that is a parameters object is left nil.
abbrev pub calls : {T : Type 0} → Format T → Arguments T → List Call
calls format a = (list format a.suppression_list_params) ∷ (delete_call a.x) ∷ []
