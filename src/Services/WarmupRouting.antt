-- ===== src/Services/WarmupRouting.antt =====
-- The requests of `WarmupRoutingService` (warmup.go), one definition for each method.
use warmbly_go.Common.{List, [], Option, ◌∷◌}
use warmbly_go.Common.Text.{Bytes}
use warmbly_go.Services.Call.{
  Call, get, post, patch, delete, lit, esc, bodiless, given, discarded, in_key, at, call, send,
}
use warmbly_go.Services.Query.{Format}
use warmbly_go.Services.Arguments.{Arguments}

abbrev pub list : Call
list = call get (at (lit "warmup/routing" ∷ [])) bodiless (in_key "rules")

abbrev pub create : Option Bytes → Call
create params = send post (at (lit "warmup/routing" ∷ [])) (given params)

abbrev pub update : Bytes → Option Bytes → Call
update id params = send patch (at (lit "warmup/routing/" ∷ esc id ∷ [])) (given params)

abbrev pub delete_call : Bytes → Call
delete_call id = call delete (at (lit "warmup/routing/" ∷ esc id ∷ [])) bodiless discarded

-- The calls of the methods above, at any arguments; a body that is a parameters object is left nil.
abbrev pub calls : {T : Type 0} → Format T → Arguments T → List Call
calls format a = (list) ∷ (create a.payload) ∷ (update a.x a.payload) ∷ (delete_call a.x) ∷ []
