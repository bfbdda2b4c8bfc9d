-- ===== src/Services/Meta.antt =====
-- The requests of `MetaService` (meta.go), one definition for each method.
use warmbly_go.Common.{List, [], ◌∷◌}
use warmbly_go.Services.Call.{
  Call, get, post, lit, bodiless, in_key, at, call, fetch, fetch_slice, send,
}
use warmbly_go.Services.Query.{Format}
use warmbly_go.Services.Arguments.{Arguments}

abbrev pub identity : Call
identity = fetch (at (lit "me" ∷ []))

abbrev pub plans : Call
plans = call get (at (lit "plans" ∷ [])) bodiless (in_key "plans")

abbrev pub timezones : Call
timezones = fetch_slice (at (lit "timezones" ∷ []))

abbrev pub realtime : Call
realtime = fetch (at (lit "realtime/info" ∷ []))

abbrev pub gateway_ticket : Call
gateway_ticket = send post (at (lit "getaway" ∷ [])) bodiless

-- The calls of the methods above, at any arguments; a body that is a parameters object is left nil.
abbrev pub calls : {T : Type 0} → Format T → Arguments T → List Call
calls format a = (identity) ∷ (plans) ∷ (timezones) ∷ (realtime) ∷ (gateway_ticket) ∷ []
