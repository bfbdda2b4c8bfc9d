-- ===== src/Services/Tasks.antt =====
-- The requests of `TaskService` (warmup.go), one definition for each method.
use warmbly_go.Common.{List, [], Option, ◌∷◌}
use warmbly_go.Common.Text.{Bytes}
use warmbly_go.Services.Call.{
  Call, post, lit, esc, bodiless, discarded, at, with_query, call, fetch_data,
}
use warmbly_go.Services.Query.{Format}
use warmbly_go.Services.Arguments.{Arguments}
use warmbly_go.Services.Params.{DeadLetterListParams, dead_letter_list_params_values}

abbrev pub dead_letters : {T : Type 0} → Format T → Option DeadLetterListParams → Call
dead_letters format params =
    fetch_data (with_query (lit "tasks/dlq" ∷ []) (dead_letter_list_params_values format params))

abbrev pub replay : Bytes → Call
replay id = call post (at (lit "tasks/dlq/" ∷ esc id ∷ lit "/replay" ∷ [])) bodiless discarded

-- The calls of the methods above, at any arguments; a body that is a parameters object is left nil.
abbrev pub calls : {T : Type 0} → Format T → Arguments T → List Call
calls format a = (dead_letters format a.dead_letter_list_params) ∷ (replay a.x) ∷ []
