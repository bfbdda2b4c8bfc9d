-- ===== src/Services/Outreach.antt =====
-- The requests of `OutreachService` (outreach.go), one definition for each method.
use warmbly_go.Common.{List, [], ◌∷◌}
use warmbly_go.Common.Text.{Bytes}
use warmbly_go.Services.Call.{Call, patch, lit, json, object, discarded, at, call, fetch, field}
use warmbly_go.Services.Query.{Format}
use warmbly_go.Services.Arguments.{Arguments}

abbrev pub get_call : Call
get_call = fetch (at (lit "outreach/settings" ∷ []))

abbrev pub update : Bytes → Call
update settings =
    call patch (at (lit "outreach/settings" ∷ [])) (object (field "settings" (json settings)))
      discarded

-- The calls of the methods above, at any arguments; a body that is a parameters object is left nil.
abbrev pub calls : {T : Type 0} → Format T → Arguments T → List Call
calls format a = (get_call) ∷ (update a.x) ∷ []
