-- ===== src/Api/Oauth/Examples.antt =====
-- The theorems on the OAuth flows at concrete inputs.
use warmbly_go.Common.{◌*◌, ◌^◌, ◌≡◌, refl, ◌↔◌, false, ◌&&◌, none, some, [], ◌∷◌, arith, ltb}
use warmbly_go.Common.Int.{pos}
use warmbly_go.Common.Text.{Bytes, codes}
use warmbly_go.Services.Query.{Query, get_all}
use warmbly_go.Services.Query.Lookup.{unless_absent}
use warmbly_go.Api.Tokens.{granted, valid}
use warmbly_go.Api.Oauth.{
  Config, Raw, Decoders, Reply, reply, retrieve_token, token_of, auth_code_query, exchange_query,
  s256_challenge_option, verifier_option,
}
use warmbly_go.Api.Oauth.Pkce.{exchange_query-auth_code_query, scope_text}
use warmbly_go.Api.Oauth.Answers.{Grants, retrieve_token-granted, token_of-valid}

abbrev config : Config
config = record {
  client_id = codes "app";
  client_secret = [];
  redirect_url = codes "https://a.example/cb";
  scopes = codes "contacts:read" ∷ [];
  endpoint = record { auth_url = []; token_url = []; revoke_url = [] };
}

abbrev challenge : Bytes → Bytes
challenge v = 99 ∷ v

abbrev pkce_auth : Query
pkce_auth = auth_code_query config (codes "s") (s256_challenge_option challenge (codes "v") ∷ [])

abbrev pkce_exchange : Query
pkce_exchange = exchange_query config (codes "code") (verifier_option (codes "v") ∷ [])

exchange_query-auth_code_query_example :
    (get_all pkce_auth "code_challenge" ≡ codes "cv" ∷ [])
    × (get_all pkce_auth "code_challenge_method" ≡ codes "S256" ∷ [])
    × (get_all pkce_auth "code_verifier" ≡ [])
    × (get_all pkce_exchange "code_verifier" ≡ codes "v" ∷ [])
    × (get_all pkce_exchange "code" ≡ codes "code" ∷ [])
    × (get_all pkce_auth "redirect_uri" ≡ get_all pkce_exchange "redirect_uri")
    × (get_all pkce_auth "response_type" ≡ codes "code" ∷ [])
    × (get_all pkce_auth "client_id" ≡ codes "app" ∷ [])
    × (get_all pkce_auth "scope" ≡ unless_absent (scope_text (codes "contacts:read" ∷ [])) [])
    × (get_all pkce_auth "state" ≡ codes "s" ∷ [])
exchange_query-auth_code_query_example =
    exchange_query-auth_code_query challenge config (codes "s") (codes "code") (codes "v") pkce_auth
      pkce_exchange refl refl

abbrev hour : Raw
hour = record {
  access_token = "a";
  token_type = "bearer";
  refresh_token = "";
  scope = "";
  expires_in = some (pos 3600);
}

-- Every body is the JSON of a token for an hour.
abbrev decoders : Decoders
decoders = record {
  trim_space = λ b. b;
  contains = λ b c. false;
  from_json = λ b. some hour;
  from_form = λ b. none;
}

abbrev answer : Reply (Unit {0})
answer = reply 200 (codes "application/json") (codes "{}")

retrieve_token-granted_example :
    (retrieve_token decoders 7 answer ≡ granted (token_of 7 hour))
    ↔ ((raw : Raw) × Grants decoders 7 answer raw × (token_of 7 hour ≡ token_of 7 raw))
retrieve_token-granted_example = retrieve_token-granted decoders 7 answer (token_of 7 hour)

token_of-valid_example :
    valid 7 (some (token_of 7 hour)) ≡ (ltb 10 3600 && ltb (3600 * 1000000000) (2 ^ 63))
token_of-valid_example = token_of-valid 7 3600 hour refl refl (omega arith) (omega arith)
