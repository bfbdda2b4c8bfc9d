-- ===== src/Services/PoolLink.antt =====
-- The requests of `PoolLinkService` (poollink.go), one definition for each method.
use warmbly_go.Common.{List, [], Option, none, ◌∷◌}
use warmbly_go.Common.Text.{Bytes}
use warmbly_go.Services.Call.{
  Call, post, delete, lit, esc, text, bodiless, object, discarded, at, call, fetch, send, field,
  omit_empty, encoded,
}
use warmbly_go.Services.Query.{Format}
use warmbly_go.Services.Arguments.{Arguments}
use warmbly_go.Services.Bodies.PoolLink.{PoolLinkStartParams, pool_link_start_params_fields}

abbrev pub start_code : Option PoolLinkStartParams → Call
start_code params =
    send post (at (lit "pool-link/codes" ∷ [])) (encoded pool_link_start_params_fields params)

abbrev pub poll : Bytes → Call
poll device_code =
    send post (at (lit "pool-link/poll" ∷ [])) (object (field "device_code" (text device_code)))

abbrev pub describe_code : Bytes → Call
describe_code user_code = fetch (at (lit "pool-link/codes/" ∷ esc user_code ∷ []))

abbrev pub approve_code : Bytes → Bytes → Call
approve_code user_code organization_id =
    send post (at (lit "pool-link/codes/" ∷ esc user_code ∷ lit "/approve" ∷ []))
      (object (omit_empty "organization_id" (text organization_id)))

abbrev pub deny_code : Bytes → Call
deny_code user_code =
    call post (at (lit "pool-link/codes/" ∷ esc user_code ∷ lit "/deny" ∷ [])) bodiless discarded

abbrev pub revoke_instance : Bytes → Call
revoke_instance id = call delete (at (lit "pool-link/instances/" ∷ esc id ∷ [])) bodiless discarded

-- The calls of the methods above, at any arguments; a body that is a parameters object is left nil.
abbrev pub calls : {T : Type 0} → Format T → Arguments T → List Call
calls format a =
    (start_code none)
    ∷ (poll a.x)
    ∷ (describe_code a.x)
    ∷ (approve_code a.x a.y)
    ∷ (deny_code a.x)
    ∷ (revoke_instance a.x)
    ∷ []
