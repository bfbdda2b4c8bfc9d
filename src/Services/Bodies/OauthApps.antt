-- ===== src/Services/Bodies/OauthApps.antt =====
-- The parameters that methods of oauth.go send as a JSON object, and the fields of that object.
use warmbly_go.Common.{List, [], ◌∷◌}
use warmbly_go.Common.Int.{ℤ}
use warmbly_go.Common.Text.{Bytes}
use warmbly_go.Services.Call.{text, texts, number, always, filled, Fields}

pub record OauthAppParams : Type 0 where
  pub name : Bytes
  pub description : Bytes
  pub logo_url : Bytes
  pub website_url : Bytes
  pub redirect_ur_is : List Bytes
  pub scopes : ℤ
  pub allowed_webhook_domains : List Bytes
  pub webhook_url : Bytes
  pub webhook_events : List Bytes

unfoldable pub oauth_app_params_fields : OauthAppParams → Fields
oauth_app_params_fields p =
    ("name", always (text p.name))
    ∷ ("description", filled (text p.description))
    ∷ ("logo_url", filled (text p.logo_url))
    ∷ ("website_url", filled (text p.website_url))
    ∷ ("redirect_uris", always (texts p.redirect_ur_is))
    ∷ ("scopes", always (number p.scopes))
    ∷ ("allowed_webhook_domains", filled (texts p.allowed_webhook_domains))
    ∷ ("webhook_url", filled (text p.webhook_url))
    ∷ ("webhook_events", filled (texts p.webhook_events))
    ∷ []

pub record AuthorizeParams : Type 0 where
  pub response_type : Bytes
  pub client_id : Bytes
  pub redirect_uri : Bytes
  pub scope : Bytes
  pub state : Bytes
  pub code_challenge : Bytes
  pub code_challenge_method : Bytes

unfoldable pub authorize_params_fields : AuthorizeParams → Fields
authorize_params_fields p =
    ("response_type", always (text p.response_type))
    ∷ ("client_id", always (text p.client_id))
    ∷ ("redirect_uri", always (text p.redirect_uri))
    ∷ ("scope", always (text p.scope))
    ∷ ("state", always (text p.state))
    ∷ ("code_challenge", filled (text p.code_challenge))
    ∷ ("code_challenge_method", filled (text p.code_challenge_method))
    ∷ []

pub record DynamicClientParams : Type 0 where
  pub client_name : Bytes
  pub redirect_ur_is : List Bytes
  pub grant_types : List Bytes
  pub response_types : List Bytes
  pub token_endpoint_auth_method : Bytes
  pub scope : Bytes
  pub client_uri : Bytes
  pub logo_uri : Bytes

unfoldable pub dynamic_client_params_fields : DynamicClientParams → Fields
dynamic_client_params_fields p =
    ("client_name", filled (text p.client_name))
    ∷ ("redirect_uris", always (texts p.redirect_ur_is))
    ∷ ("grant_types", filled (texts p.grant_types))
    ∷ ("response_types", filled (texts p.response_types))
    ∷ ("token_endpoint_auth_method", filled (text p.token_endpoint_auth_method))
    ∷ ("scope", filled (text p.scope))
    ∷ ("client_uri", filled (text p.client_uri))
    ∷ ("logo_uri", filled (text p.logo_uri))
    ∷ []
