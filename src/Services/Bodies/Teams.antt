-- ===== src/Services/Bodies/Teams.antt =====
-- The parameters that methods of teams.go send as a JSON object, and the fields of that object.
use warmbly_go.Common.{Option, [], ◌∷◌}
use warmbly_go.Common.Text.{Bytes}
use warmbly_go.Services.Call.{text, always, filled, set_only, Fields}

pub record TeamCreateParams : Type 0 where
  pub name : Bytes
  pub color : Bytes

unfoldable pub team_create_params_fields : TeamCreateParams → Fields
team_create_params_fields p = ("name", always (text p.name)) ∷ ("color", filled (text p.color)) ∷ []

pub record TeamUpdateParams : Type 0 where
  pub name : Option Bytes
  pub color : Option Bytes

unfoldable pub team_update_params_fields : TeamUpdateParams → Fields
team_update_params_fields p = ("name", set_only text p.name) ∷ ("color", set_only text p.color) ∷ []
