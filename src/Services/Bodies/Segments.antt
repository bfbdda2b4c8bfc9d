-- ===== src/Services/Bodies/Segments.antt =====
-- The parameters that methods of segments.go send as a JSON object, and the fields of that object.
use warmbly_go.Common.{Option, [], ◌∷◌}
use warmbly_go.Common.Text.{Bytes}
use warmbly_go.Services.Call.{text, json, always, filled, set_only, or_null, Fields}

pub record SegmentCreateParams : Type 0 where
  pub name : Bytes
  pub description : Option Bytes
  pub color : Option Bytes
  pub match : Option Bytes
  pub conditions : Option Bytes

unfoldable pub segment_create_params_fields : SegmentCreateParams → Fields
segment_create_params_fields p =
    ("name", always (text p.name))
    ∷ ("description", set_only text p.description)
    ∷ ("color", set_only text p.color)
    ∷ ("match", set_only text p.match)
    ∷ ("conditions", set_only json p.conditions)
    ∷ []

pub record SegmentUpdateParams : Type 0 where
  pub name : Option Bytes
  pub description : Option Bytes
  pub color : Option Bytes
  pub match : Option Bytes
  pub conditions : Option Bytes

unfoldable pub segment_update_params_fields : SegmentUpdateParams → Fields
segment_update_params_fields p =
    ("name", set_only text p.name)
    ∷ ("description", set_only text p.description)
    ∷ ("color", set_only text p.color)
    ∷ ("match", set_only text p.match)
    ∷ ("conditions", or_null json p.conditions)
    ∷ []

pub record SegmentPreviewParams : Type 0 where
  pub id : Option Bytes
  pub match : Bytes
  pub conditions : Option Bytes

unfoldable pub segment_preview_params_fields : SegmentPreviewParams → Fields
segment_preview_params_fields p =
    ("id", set_only text p.id)
    ∷ ("match", filled (text p.match))
    ∷ ("conditions", or_null json p.conditions)
    ∷ []
