-- ===== src/Services/Organization.antt =====
-- The requests of `OrganizationService` (organization.go), one definition for each method.
use warmbly_go.Common.{List, [], Option, none, ◌∷◌}
use warmbly_go.Common.Text.{Bytes}
use warmbly_go.Services.Call.{
  Call, get, post, patch, delete, lit, esc, text, bodiless, object, discarded, in_key, at, call,
  fetch, fetch_data, send, field, encoded,
}
use warmbly_go.Services.Query.{Format}
use warmbly_go.Services.Arguments.{Arguments}
use warmbly_go.Services.Bodies.Organization.{
  InviteMemberParams, OrganizationCreateParams, OrganizationUpdateParams, RoleCreateParams,
  RoleUpdateParams, UpdateMemberParams, invite_member_params_fields,
  organization_create_params_fields, organization_update_params_fields, role_create_params_fields,
  role_update_params_fields, update_member_params_fields,
}

abbrev pub create : Option OrganizationCreateParams → Call
create params =
    send post (at (lit "organization" ∷ [])) (encoded organization_create_params_fields params)

abbrev pub list : Call
list = fetch_data (at (lit "organization" ∷ []))

abbrev pub switch : Bytes → Call
switch id = call post (at (lit "organization/switch/" ∷ esc id ∷ [])) bodiless discarded

abbrev pub current : Call
current = fetch (at (lit "organization/current" ∷ []))

abbrev pub update : Option OrganizationUpdateParams → Call
update params =
    send patch (at (lit "organization/current" ∷ []))
      (encoded organization_update_params_fields params)

abbrev pub limits : Call
limits = fetch (at (lit "organization/current/limits" ∷ []))

abbrev pub delete_avatar : Call
delete_avatar = call delete (at (lit "organization/avatar" ∷ [])) bodiless discarded

abbrev pub members : Call
members = fetch_data (at (lit "organization/members" ∷ []))

abbrev pub invite : Option InviteMemberParams → Call
invite params =
    call post (at (lit "organization/members/invite" ∷ []))
      (encoded invite_member_params_fields params) (in_key "invitation")

abbrev pub update_member : Bytes → Option UpdateMemberParams → Call
update_member id params =
    send patch (at (lit "organization/members/" ∷ esc id ∷ []))
      (encoded update_member_params_fields params)

abbrev pub remove_member : Bytes → Call
remove_member id = call delete (at (lit "organization/members/" ∷ esc id ∷ [])) bodiless discarded

abbrev pub transfer_ownership : Bytes → Call
transfer_ownership new_owner_user_id =
    call post (at (lit "organization/transfer-ownership" ∷ []))
      (object (field "new_owner_user_id" (text new_owner_user_id))) discarded

abbrev pub roles : Call
roles = fetch_data (at (lit "organization/roles" ∷ []))

abbrev pub create_role : Option RoleCreateParams → Call
create_role params =
    send post (at (lit "organization/roles" ∷ [])) (encoded role_create_params_fields params)

abbrev pub update_role : Bytes → Option RoleUpdateParams → Call
update_role id params =
    send patch (at (lit "organization/roles/" ∷ esc id ∷ []))
      (encoded role_update_params_fields params)

abbrev pub delete_role : Bytes → Call
delete_role id = call delete (at (lit "organization/roles/" ∷ esc id ∷ [])) bodiless discarded

abbrev pub invitations : Call
invitations = fetch_data (at (lit "organization/invitations" ∷ []))

abbrev pub cancel_invitation : Bytes → Call
cancel_invitation id =
    call delete (at (lit "organization/invitations/" ∷ esc id ∷ [])) bodiless discarded

abbrev pub invitation_link : Bytes → Call
invitation_link id =
    call get (at (lit "organization/invitations/" ∷ esc id ∷ lit "/link" ∷ [])) bodiless
      (in_key "token")

abbrev pub my_invitations : Call
my_invitations = fetch_data (at (lit "invitations" ∷ []))

-- The calls of the methods above, at any arguments; a body that is a parameters object is left nil.
abbrev pub calls : {T : Type 0} → Format T → Arguments T → List Call
calls format a =
    (create none)
    ∷ (list)
    ∷ (switch a.x)
    ∷ (current)
    ∷ (update none)
    ∷ (limits)
    ∷ (delete_avatar)
    ∷ (members)
    ∷ (invite none)
    ∷ (update_member a.x none)
    ∷ (remove_member a.x)
    ∷ (transfer_ownership a.x)
    ∷ (roles)
    ∷ (create_role none)
    ∷ (update_role a.x none)
    ∷ (delete_role a.x)
    ∷ (invitations)
    ∷ (cancel_invitation a.x)
    ∷ (invitation_link a.x)
    ∷ (my_invitations)
    ∷ []
