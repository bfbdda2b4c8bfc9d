-- ===== src/Api/Oauth.antt =====
-- The authorization-code and client-credentials flows of oauth_flow.go: the parameters that they send,
-- and what is made of the token endpoint's answer. `encode` is `url.Values.Encode`, `escape` is
-- `url.QueryEscape`, and `challenge` the base64url text of the SHA-256 digest.
pub mod Answers
pub mod Errors
mod Examples
pub mod Flows
pub mod Pkce
use warmbly_go.Common.{
  ℕ, ◌+◌, Bool, true, false, not, ◌&&◌, ◌||◌, Option, none, some, List, [], ◌∷◌, ◌++◌, ◌==◌,
  if◌then◌else◌, ltb, leb,
}
use warmbly_go.Common.Int.{ℤ, pos, pos_part, neg_part, sub_ℕ, ltb_ℤ, scale, wrap64}
use warmbly_go.Common.Text.{String, Bytes, codes, str_eq}
use warmbly_go.Api.Tokens.{Token, Grant, granted, denied}
use warmbly_go.Services.Query.{Query, set, add, set_non_empty, join}

pub record Endpoint : Type 0 where
  pub auth_url : Bytes
  pub token_url : Bytes
  pub revoke_url : Bytes

abbrev pub default_endpoint : Endpoint
default_endpoint = record {
  auth_url = codes "https://app.warmbly.com/oauth/authorize";
  token_url = codes "https://api.warmbly.com/v1/oauth/token";
  revoke_url = codes "https://api.warmbly.com/v1/oauth/revoke";
}

pub record Config : Type 0 where
  pub client_id : Bytes
  pub client_secret : Bytes
  pub redirect_url : Bytes
  pub scopes : List Bytes
  pub endpoint : Endpoint

abbrev pub or_default : Bytes → Bytes → Bytes
or_default [] d = d
or_default (b ∷ bs) d = b ∷ bs

abbrev pub auth_url : Config → Bytes
auth_url c = or_default c.endpoint.auth_url default_endpoint.auth_url

abbrev pub token_url : Config → Bytes
token_url c = or_default c.endpoint.token_url default_endpoint.token_url

-- An `AuthCodeOption`: the parameters that it sets. The keys of one option differ.
abbrev pub Setting : Type 0
Setting = List (String × Bytes)

unfoldable pub set_all : Query → Setting → Query
set_all q [] = q
set_all q ((k, v) ∷ kvs) = set_all (set q k v) kvs

unfoldable pub set_options : Query → List Setting → Query
set_options q [] = q
set_options q (o ∷ os) = set_options (set_all q o) os

abbrev pub s256_challenge_option : (Bytes → Bytes) → Bytes → Setting
s256_challenge_option challenge verifier =
    ("code_challenge_method", codes "S256") ∷ ("code_challenge", challenge verifier) ∷ []

abbrev pub verifier_option : Bytes → Setting
verifier_option verifier = ("code_verifier", verifier) ∷ []

abbrev pub set_scopes : Query → List Bytes → Query
set_scopes q [] = q
set_scopes q (s ∷ ss) = set q "scope" (join (s ∷ ss) (codes " "))

-- The parameters of `AuthCodeURL`.
unfoldable pub auth_code_query : Config → Bytes → List Setting → Query
auth_code_query c state opts =
    let q = ("response_type", codes "code" ∷ []) ∷ ("client_id", c.client_id ∷ []) ∷ [] in
    let q = set_non_empty q "redirect_uri" c.redirect_url in
    set_options (set_non_empty (set_scopes q c.scopes) "state" state) opts

abbrev pub has_query : Bytes → Bool
has_query [] = false
has_query (b ∷ bs) = b == 63 || has_query bs

abbrev pub auth_code_url : (Query → Bytes) → Config → Bytes → List Setting → Bytes
auth_code_url encode c state opts =
    auth_url c
    ++ (if has_query (auth_url c) then 38 ∷ [] else 63 ∷ [])
    ++ encode (auth_code_query c state opts)

-- The parameters of `Exchange`, `Refresh` and `ClientCredentialsConfig.Token`.
unfoldable pub exchange_query : Config → Bytes → List Setting → Query
exchange_query c code opts =
    set_options
      (set_non_empty (("grant_type", codes "authorization_code" ∷ []) ∷ ("code", code ∷ []) ∷ [])
        "redirect_uri" c.redirect_url)
      opts

unfoldable pub refresh_query : Config → Bytes → Query
refresh_query c refresh_token =
    set_scopes
      (("grant_type", codes "refresh_token" ∷ []) ∷ ("refresh_token", refresh_token ∷ []) ∷ [])
      c.scopes

unfoldable pub add_values : Query → String → List Bytes → Query
add_values q k [] = q
add_values q k (v ∷ vs) = add_values (add q k v) k vs

unfoldable pub add_params : Query → Query → Query
add_params q [] = q
add_params q ((k, vs) ∷ params) = add_params (add_values q k vs) params

unfoldable pub credentials_query : List Bytes → Query → Query
credentials_query scopes params =
    add_params (set_scopes (("grant_type", codes "client_credentials" ∷ []) ∷ []) scopes) params

-- A request to the token or revocation endpoint: its form, and the basic credentials.
pub record FormRequest : Type 0 where
  pub url : Bytes
  pub form : Query
  pub basic : Option (Bytes × Bytes)

abbrev pub is_empty : Bytes → Bool
is_empty [] = true
is_empty (b ∷ bs) = false

-- How `retrieveToken` and `revokeToken` identify the client.
unfoldable pub form_request : (Bytes → Bytes) → Bytes → Bytes → Bytes → Query → FormRequest
form_request escape url id secret v =
    if not (is_empty id) && not (is_empty secret)
    then record { url = url; form = v; basic = some (escape id, escape secret) }
    else record { url = url; form = set_non_empty v "client_id" id; basic = none }

-- What the exchange with the endpoint came to.
pub data Reply (E : Type 0) : Type 0 where
  failed : E → Reply E
  reply : ℕ → Bytes → Bytes → Reply E

-- What a decoder makes of a token response; `expires_in` is none if it is absent or no int64.
pub record Raw : Type 0 where
  pub access_token : String
  pub token_type : String
  pub refresh_token : String
  pub scope : String
  pub expires_in : Option ℤ

pub data GrantError (E : Type 0) : Type 0 where
  transport : E → GrantError E
  refused : ℕ → Bytes → GrantError E
  malformed : GrantError E
  no_access_token : ℕ → GrantError E

-- What the code takes from strings, encoding/json and net/url.
pub record Decoders : Type 0 where
  pub trim_space : Bytes → Bytes
  pub contains : Bytes → Bytes → Bool
  pub from_json : Bytes → Option Raw
  pub from_form : Bytes → Option Raw

abbrev pub starts_brace : Bytes → Bool
starts_brace [] = false
starts_brace (b ∷ bs) = b == 123

unfoldable pub looks_form : Decoders → Bytes → Bytes → Bool
looks_form d content_type body =
    let trimmed = d.trim_space body in
    not (d.contains content_type (codes "json") || starts_brace trimmed)
    && (d.contains content_type (codes "application/x-www-form-urlencoded")
        || (not (is_empty trimmed) && not (starts_brace trimmed) && d.contains trimmed (codes "=")))

-- The time `now` plus a duration. An expiry before the epoch counts as the epoch.
abbrev pub time_after : ℕ → ℤ → ℕ
time_after now d = pos_part (sub_ℕ (now + pos_part d) (neg_part d))

unfoldable pub expiry_of : ℕ → Option ℤ → Option ℕ
expiry_of now none = none
expiry_of now (some secs) =
    if ltb_ℤ (pos 0) secs then some (time_after now (wrap64 (scale secs 1000000000))) else none

abbrev pub token_of : ℕ → Raw → Token
token_of now raw = record {
  access_token = raw.access_token;
  token_type = raw.token_type;
  refresh_token = raw.refresh_token;
  expiry = expiry_of now raw.expires_in;
}

unfoldable pub parse_token : Decoders → Bytes → Bytes → Option Raw
parse_token d body content_type =
    if looks_form d content_type body then d.from_form (d.trim_space body) else d.from_json body

abbrev pub judge_raw : {E : Type 0} → ℕ → ℕ → Option Raw → Grant (GrantError E)
judge_raw now status none = denied malformed
judge_raw now status (some raw) =
    if str_eq raw.access_token ""
    then denied (no_access_token status)
    else granted (token_of now raw)

abbrev pub is_success : ℕ → Bool
is_success status = leb 200 status && ltb status 300

-- The end of `retrieveToken`.
unfoldable pub retrieve_token : {E : Type 0} → Decoders → ℕ → Reply E → Grant (GrantError E)
retrieve_token d now (failed e) = denied (transport e)
retrieve_token d now (reply status content_type body) =
    if is_success status
    then judge_raw now status (parse_token d body content_type)
    else denied (refused status body)
