-- ===== src/Services/Bodies/Organization.antt =====
-- The parameters that methods of organization.go send as a JSON object, and the fields of that object.
use warmbly_go.Common.{Bool, Option, List, [], ◌∷◌}
use warmbly_go.Common.Int.{ℤ}
use warmbly_go.Common.Text.{Bytes}
use warmbly_go.Services.Call.{text, texts, number, flag, always, filled, set_only, Fields}

pub record RoleCreateParams : Type 0 where
  pub name : Bytes
  pub description : Bytes
  pub color : Bytes
  pub permissions : ℤ

unfoldable pub role_create_params_fields : RoleCreateParams → Fields
role_create_params_fields p =
    ("name", always (text p.name))
    ∷ ("description", filled (text p.description))
    ∷ ("color", filled (text p.color))
    ∷ ("permissions", always (number p.permissions))
    ∷ []

pub record RoleUpdateParams : Type 0 where
  pub name : Option Bytes
  pub description : Option Bytes
  pub color : Option Bytes
  pub permissions : Option ℤ

unfoldable pub role_update_params_fields : RoleUpdateParams → Fields
role_update_params_fields p =
    ("name", set_only text p.name)
    ∷ ("description", set_only text p.description)
    ∷ ("color", set_only text p.color)
    ∷ ("permissions", set_only number p.permissions)
    ∷ []

pub record OrganizationCreateParams : Type 0 where
  pub name : Bytes

unfoldable pub organization_create_params_fields : OrganizationCreateParams → Fields
organization_create_params_fields p = ("name", always (text p.name)) ∷ []

pub record OrganizationUpdateParams : Type 0 where
  pub name : Option Bytes
  pub slug : Option Bytes
  pub presence_show_online : Option Bool
  pub presence_show_activity : Option Bool
  pub product_description : Option Bytes
  pub icp_notes : Option Bytes
  pub voice_profile : Option Bytes
  pub inbox_agent_enabled : Option Bool
  pub assistant_shared_history : Option Bool

unfoldable pub organization_update_params_fields : OrganizationUpdateParams → Fields
organization_update_params_fields p =
    ("name", set_only text p.name)
    ∷ ("slug", set_only text p.slug)
    ∷ ("presence_show_online", set_only flag p.presence_show_online)
    ∷ ("presence_show_activity", set_only flag p.presence_show_activity)
    ∷ ("product_description", set_only text p.product_description)
    ∷ ("icp_notes", set_only text p.icp_notes)
    ∷ ("voice_profile", set_only text p.voice_profile)
    ∷ ("inbox_agent_enabled", set_only flag p.inbox_agent_enabled)
    ∷ ("assistant_shared_history", set_only flag p.assistant_shared_history)
    ∷ []

pub record InviteMemberParams : Type 0 where
  pub email : Bytes
  pub role_ids : List Bytes
  pub role_id : Option Bytes

unfoldable pub invite_member_params_fields : InviteMemberParams → Fields
invite_member_params_fields p =
    ("email", always (text p.email))
    ∷ ("role_ids", filled (texts p.role_ids))
    ∷ ("role_id", set_only text p.role_id)
    ∷ []

pub record UpdateMemberParams : Type 0 where
  pub role_ids : List Bytes
  pub role_id : Option Bytes

unfoldable pub update_member_params_fields : UpdateMemberParams → Fields
update_member_params_fields p =
    ("role_ids", filled (texts p.role_ids)) ∷ ("role_id", set_only text p.role_id) ∷ []

pub record ScheduleDeletionParams : Type 0 where
  pub confirmation : Bytes
  pub reason : Bytes

unfoldable pub schedule_deletion_params_fields : ScheduleDeletionParams → Fields
schedule_deletion_params_fields p =
    ("confirmation", always (text p.confirmation)) ∷ ("reason", filled (text p.reason)) ∷ []

pub record LimitRequestParams : Type 0 where
  pub field_arg : Bytes
  pub requested : ℤ
  pub reason : Bytes

unfoldable pub limit_request_params_fields : LimitRequestParams → Fields
limit_request_params_fields p =
    ("field", always (text p.field_arg))
    ∷ ("requested", always (number p.requested))
    ∷ ("reason", always (text p.reason))
    ∷ []
