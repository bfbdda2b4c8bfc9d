-- ===== src/Services/Automations.antt =====
-- The requests of `AutomationService` (automations.go), one definition for each method.
use warmbly_go.Common.{List, [], Option, some, ◌∷◌}
use warmbly_go.Common.Int.{ℤ}
use warmbly_go.Common.Text.{Bytes}
use warmbly_go.Services.Call.{
  Call, Verb, Piece, Body, get, post, patch, delete, lit, esc, json, bodiless, given, object,
  discarded, in_key, at, with_query, call, send, field, or_empty,
}
use warmbly_go.Services.Query.{Format, set_positive}
use warmbly_go.Services.Arguments.{Arguments}

abbrev pub one_automation : Verb → List Piece → Body → Call
one_automation verb path body = call verb (at path) body (in_key "automation")

abbrev pub list : Call
list = call get (at (lit "automations" ∷ [])) bodiless (in_key "automations")

abbrev pub create : Option Bytes → Call
create params = one_automation post (lit "automations" ∷ []) (given params)

abbrev pub get_call : Bytes → Call
get_call id = call get (at (lit "automations/" ∷ esc id ∷ [])) bodiless (in_key "automation")

abbrev pub update : Bytes → Option Bytes → Call
update id params = one_automation patch (lit "automations/" ∷ esc id ∷ []) (given params)

abbrev pub update_layout : Bytes → Bytes → Call
update_layout id positions =
    call patch (at (lit "automations/" ∷ esc id ∷ lit "/layout" ∷ []))
      (object (field "positions" (json positions))) discarded

abbrev pub delete_call : Bytes → Call
delete_call id = call delete (at (lit "automations/" ∷ esc id ∷ [])) bodiless discarded

abbrev pub dry_run : Bytes → Option Bytes → Call
dry_run id params =
    send post (at (lit "automations/" ∷ esc id ∷ lit "/test" ∷ [])) (given (some (or_empty params)))

abbrev pub runs : {T : Type 0} → Format T → Bytes → ℤ → Call
runs format id limit =
    call get
      (with_query (lit "automations/" ∷ esc id ∷ lit "/runs" ∷ [])
        (set_positive format [] "limit" limit))
      bodiless (in_key "runs")

-- The calls of the methods above, at any arguments; a body that is a parameters object is left nil.
abbrev pub calls : {T : Type 0} → Format T → Arguments T → List Call
calls format a =
    (list)
    ∷ (create a.payload)
    ∷ (get_call a.x)
    ∷ (update a.x a.payload)
    ∷ (update_layout a.x a.y)
    ∷ (delete_call a.x)
    ∷ (dry_run a.x a.payload)
    ∷ (runs format a.x a.number)
    ∷ []
