-- ===== src/Services/Groups.antt =====
-- The requests of `GroupService` (groups.go), one definition for each method.
use warmbly_go.Common.{List, [], Option, ◌∷◌}
use warmbly_go.Common.Int.{ℤ}
use warmbly_go.Common.Text.{Bytes, String}
use warmbly_go.Services.Call.{
  Call, post, patch, delete, lit, esc, number, bodiless, given, object, discarded, at, call, send,
  send_slice, field,
}
use warmbly_go.Services.Query.{Format}
use warmbly_go.Services.Arguments.{Arguments}

abbrev pub create : String → Option Bytes → Call
create name params = send post (at (lit name ∷ [])) (given params)

abbrev pub update : String → Bytes → Option Bytes → Call
update name id params = send patch (at (lit name ∷ lit "/" ∷ esc id ∷ [])) (given params)

abbrev pub move : String → Bytes → ℤ → Call
move name id position =
    send_slice patch (at (lit name ∷ lit "/" ∷ esc id ∷ lit "/move" ∷ []))
      (object (field "position" (number position)))

abbrev pub delete_call : String → Bytes → Call
delete_call name id = call delete (at (lit name ∷ lit "/" ∷ esc id ∷ [])) bodiless discarded

-- The calls of the methods above, at any arguments; a body that is a parameters object is left nil.
abbrev pub calls : {T : Type 0} → Format T → Arguments T → List Call
calls format a =
    (create "folders" a.payload)
    ∷ (update "folders" a.x a.payload)
    ∷ (move "folders" a.x a.number)
    ∷ (delete_call "folders" a.x)
    ∷ (create "tags" a.payload)
    ∷ (update "tags" a.x a.payload)
    ∷ (move "tags" a.x a.number)
    ∷ (delete_call "tags" a.x)
    ∷ (create "categories" a.payload)
    ∷ (update "categories" a.x a.payload)
    ∷ (move "categories" a.x a.number)
    ∷ (delete_call "categories" a.x)
    ∷ []
