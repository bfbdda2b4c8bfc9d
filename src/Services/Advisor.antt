-- ===== src/Services/Advisor.antt =====
-- The requests of `AdvisorService` (advisor.go), one definition for each method.
use warmbly_go.Common.{List, [], Bool, Option, none, ◌∷◌, ◌++◌}
use warmbly_go.Common.Int.{ℤ}
use warmbly_go.Common.Text.{Bytes}
use warmbly_go.Services.Call.{
  Call, post, patch, lit, esc, text, number, flag, bodiless, object, discarded, at, with_query,
  call, fetch, fetch_data, send, field, omit_empty, encoded,
}
use warmbly_go.Services.Query.{Format}
use warmbly_go.Services.Arguments.{Arguments}
use warmbly_go.Services.Bodies.Advisor.{AdvisorSettings, advisor_settings_fields}
use warmbly_go.Services.Params.{AdvisorListParams, advisor_list_params_values}

abbrev pub recommendations : {T : Type 0} → Format T → Option AdvisorListParams → Call
recommendations format params =
    fetch_data
      (with_query (lit "advisor/recommendations" ∷ []) (advisor_list_params_values format params))

abbrev pub summary : Call
summary = fetch (at (lit "advisor/summary" ∷ []))

abbrev pub refresh : Call
refresh = send post (at (lit "advisor/refresh" ∷ [])) bodiless

abbrev pub apply_call : Bytes → Call
apply_call id =
    send post (at (lit "advisor/recommendations/" ∷ esc id ∷ lit "/apply" ∷ [])) bodiless

abbrev pub undo : Bytes → Call
undo id = send post (at (lit "advisor/recommendations/" ∷ esc id ∷ lit "/undo" ∷ [])) bodiless

abbrev pub agent_fix : Bytes → Call
agent_fix id =
    send post (at (lit "advisor/recommendations/" ∷ esc id ∷ lit "/agent-fix" ∷ [])) bodiless

abbrev pub snooze : Bytes → ℤ → Call
snooze id days =
    call post (at (lit "advisor/recommendations/" ∷ esc id ∷ lit "/snooze" ∷ []))
      (object (field "days" (number days))) discarded

abbrev pub dismiss : Bytes → Bytes → Call
dismiss id reason =
    call post (at (lit "advisor/recommendations/" ∷ esc id ∷ lit "/dismiss" ∷ []))
      (object (omit_empty "reason" (text reason))) discarded

abbrev pub feedback : Bytes → Bool → Bytes → Call
feedback id helpful reason =
    call post (at (lit "advisor/recommendations/" ∷ esc id ∷ lit "/feedback" ∷ []))
      (object (field "helpful" (flag helpful) ++ omit_empty "reason" (text reason))) discarded

abbrev pub settings : Call
settings = fetch (at (lit "advisor/settings" ∷ []))

abbrev pub update_settings : Option AdvisorSettings → Call
update_settings settings =
    send patch (at (lit "advisor/settings" ∷ [])) (encoded advisor_settings_fields settings)

-- The calls of the methods above, at any arguments; a body that is a parameters object is left nil.
abbrev pub calls : {T : Type 0} → Format T → Arguments T → List Call
calls format a =
    (recommendations format a.advisor_list_params)
    ∷ (summary)
    ∷ (refresh)
    ∷ (apply_call a.x)
    ∷ (undo a.x)
    ∷ (agent_fix a.x)
    ∷ (snooze a.x a.number)
    ∷ (dismiss a.x a.y)
    ∷ (feedback a.x a.flag a.y)
    ∷ (settings)
    ∷ (update_settings none)
    ∷ []
