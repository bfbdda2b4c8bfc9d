-- ===== src/Services/AgentTools.antt =====
-- The requests of `AgentToolService` (agenttools.go), one definition for each method.
use warmbly_go.Common.{List, [], Option, ◌∷◌}
use warmbly_go.Common.Text.{Bytes}
use warmbly_go.Services.Call.{Call, post, lit, esc, given, in_key, at, call, fetch_data}
use warmbly_go.Services.Query.{Format}
use warmbly_go.Services.Arguments.{Arguments}

abbrev pub list : Call
list = fetch_data (at (lit "ai/tools" ∷ []))

abbrev pub call_call : Bytes → Option Bytes → Call
call_call name args =
    call post (at (lit "ai/tools/" ∷ esc name ∷ lit "/call" ∷ [])) (given args) (in_key "data")

-- The calls of the methods above, at any arguments; a body that is a parameters object is left nil.
abbrev pub calls : {T : Type 0} → Format T → Arguments T → List Call
calls format a = (list) ∷ (call_call a.x a.payload) ∷ []
