-- ===== src/Api/Oauth/Flows.antt =====
-- `Exchange`, `Refresh`, `Revoke` and `ClientCredentialsConfig.Token` (oauth_flow.go) against a server,
-- which is a function of the request. `now` is the time at which the answer is parsed.
use warmbly_go.Common.{ℕ, Option, none, some, List, [], ◌∷◌, if◌then◌else◌}
use warmbly_go.Common.Text.{String, Bytes, codes}
use warmbly_go.Services.Query.{Query}
use warmbly_go.Api.Tokens.{Token, Grant, Supply, refresh_source, credentials_source}
use warmbly_go.Api.Oauth.{
  Config, Setting, FormRequest, Reply, failed, reply, GrantError, transport, refused, Decoders,
  or_default, default_endpoint, token_url, exchange_query, refresh_query, credentials_query,
  form_request, retrieve_token, is_success,
}

module _ {E : Type 0} (escape : Bytes → Bytes) (server : FormRequest → Reply E) where
  unfoldable pub exchange : Decoders → ℕ → Config → Bytes → List Setting → Grant (GrantError E)
  exchange d now c code opts = retrieve_token d now (
      server (
        form_request escape (token_url c) c.client_id c.client_secret (exchange_query c code opts)))

  -- The refresh token of a `Token` as bytes.
  unfoldable pub refresh : Decoders → ℕ → Config → String → Grant (GrantError E)
  refresh d now c refresh_token = retrieve_token d now (
      server (
        form_request escape (token_url c) c.client_id c.client_secret
          (refresh_query c (codes refresh_token))))

  abbrev pub judge_revoked : Reply E → Option (GrantError E)
  judge_revoked (failed e) = some (transport e)
  judge_revoked (reply status content_type body) =
      if is_success status then none else some (refused status body)

  unfoldable pub revoke : Config → Bytes → Option (GrantError E)
  revoke c token = judge_revoked (
      server (
        form_request escape (or_default c.endpoint.revoke_url default_endpoint.revoke_url)
          c.client_id c.client_secret (("token", token ∷ []) ∷ [])))

  -- The token URL, the scopes and the extra parameters of a `ClientCredentialsConfig`.
  unfoldable pub credentials_token : Decoders → ℕ → Config → Query → Grant (GrantError E)
  credentials_token d now c params = retrieve_token d now (
      server (
        form_request escape (token_url c) c.client_id c.client_secret
          (credentials_query c.scopes params)))

  -- `OAuth2Config.TokenSource` and `ClientCredentialsConfig.TokenSource`: the sources over the server.
  unfoldable pub refresh_token_source :
      Decoders → ℕ → Config → Option Token → Supply (GrantError E) × Option Token
  refresh_token_source d now c t = refresh_source now (refresh d now c) t

  unfoldable pub client_credentials_source :
      Decoders → ℕ → Config → Query → Option Token → Supply (GrantError E) × Option Token
  client_credentials_source d now c params t =
      credentials_source now (credentials_token d now c params) t
