-- ===== src/Services/Bodies/PoolLink.antt =====
-- The parameters that methods of poollink.go send as a JSON object, and the fields of that object.
use warmbly_go.Common.{[], ◌∷◌}
use warmbly_go.Common.Text.{Bytes}
use warmbly_go.Services.Call.{text, always, Fields}

pub record PoolLinkStartParams : Type 0 where
  pub instance_name : Bytes
  pub instance_url : Bytes
  pub instance_version : Bytes

unfoldable pub pool_link_start_params_fields : PoolLinkStartParams → Fields
pool_link_start_params_fields p =
    ("instance_name", always (text p.instance_name))
    ∷ ("instance_url", always (text p.instance_url))
    ∷ ("instance_version", always (text p.instance_version))
    ∷ []
