-- ===== src/Api/Client.antt =====
-- The root `Client` of client.go as its options (options.go) and `New` configure it: credentials, base URL,
-- user agent, default headers and retries. An option's error ends `New`. `K` is the type of token
-- sources, authenticators and HTTP clients, which are the caller's; none is a nil one.
mod Examples
pub mod Laws
pub mod Authorization
use warmbly_go.Common.{
  Bool, true, false, Option, none, some, List, [], ◌∷◌, ◌++◌, ◌==◌, ◌||◌, if◌then◌else◌,
}
use warmbly_go.Common.Int.{ℤ}
use warmbly_go.Common.Text.{String, str_eq, join, Bytes, codes}
use warmbly_go.Api.Retry.{Policy, default_policy, with_max_retries, with_retry_wait_bounds}
use warmbly_go.Services.Query.{Query, set}

-- `apiKeyAuth`, `accessTokenAuth`, and an authenticator that the caller gives or that asks a source.
pub data Credential (K : Type 0) : Type 0 where
  api_key access_token : String → Credential K
  token_source authenticator : K → Credential K

pub record BaseUrl : Type 0 where
  pub scheme : String
  pub host : String
  pub path : Bytes

pub record Client (K : Type 0) : Type 0 where
  pub auth : Option (Credential K)
  pub base_url : BaseUrl
  pub http_client : Option K
  pub user_agent : String
  pub default_headers : Query
  pub policy : Policy

pub data NewError : Type 0 where
  empty_key empty_token nil_source nil_authenticator invalid_url relative_url : NewError
  nil_http_client negative_retries invalid_bounds empty_header no_credentials : NewError

pub data Built (K : Type 0) : Type 0 where
  built : Client K → Built K
  refused : NewError → Built K

pub data ClientOption (K : Type 0) : Type 0 where
  with_api_key with_access_token with_base_url with_user_agent : String → ClientOption K
  with_token_source with_authenticator with_http_client : Option K → ClientOption K
  max_retries : ℤ → ClientOption K
  retry_wait_bounds : ℤ → ℤ → ClientOption K
  with_header : String → Bytes → ClientOption K

-- What the code takes from strings, net/url and net/http.
pub record Library : Type 0 where
  pub trim_space : String → String
  pub parse_url : String → Option BaseUrl
  pub canonical : String → String

abbrev pub ends_slash : Bytes → Bool
ends_slash [] = false
ends_slash (b ∷ []) = b == 47
ends_slash (b ∷ c ∷ bs) = ends_slash (c ∷ bs)

abbrev pub default_user_agent : String → String
default_user_agent version = join "warmbly-go/" version

module _ {K : Type 0} where
  abbrev pub with_credential : Bool → NewError → Credential K → Client K → Built K
  with_credential missing e a c = if missing then refused e else built (record c { auth = some a })

  abbrev pub with_source : NewError → (K → Credential K) → Option K → Client K → Built K
  with_source e f none c = refused e
  with_source e f (some k) c = built (record c { auth = some (f k) })

  abbrev pub with_base : Option BaseUrl → Client K → Built K
  with_base none c = refused invalid_url
  with_base (some u) c =
      let path = if ends_slash u.path then u.path else u.path ++ 47 ∷ [] in
      if str_eq u.scheme "" || str_eq u.host ""
      then refused relative_url
      else built (record c { base_url = record u { path = path } })

  abbrev pub with_client : Option K → Client K → Built K
  with_client none c = refused nil_http_client
  with_client (some k) c = built (record c { http_client = some k })

  abbrev pub with_product : String → String → Client K → Client K
  with_product version product c =
      if str_eq product ""
      then c
      else record c { user_agent = join product (join " " (default_user_agent version)) }

  abbrev pub with_policy : NewError → Option Policy → Client K → Built K
  with_policy e none c = refused e
  with_policy e (some p) c = built (record c { policy = p })

  -- `version` is the SDK's own.
  unfoldable pub apply_option : Library → String → ClientOption K → Client K → Built K
  apply_option l version (with_api_key k) c =
      with_credential (str_eq (l.trim_space k) "") empty_key (api_key (l.trim_space k)) c
  apply_option l version (with_access_token t) c =
      with_credential (str_eq (l.trim_space t) "") empty_token (access_token (l.trim_space t)) c
  apply_option l version (with_base_url raw) c = with_base (l.parse_url raw) c
  apply_option l version (with_user_agent p) c = built (with_product version (l.trim_space p) c)
  apply_option l version (with_token_source s) c = with_source nil_source token_source s c
  apply_option l version (with_authenticator a) c = with_source nil_authenticator authenticator a c
  apply_option l version (with_http_client h) c = with_client h c
  apply_option l version (max_retries n) c =
      with_policy negative_retries (with_max_retries n c.policy) c
  apply_option l version (retry_wait_bounds least most) c =
      with_policy invalid_bounds (with_retry_wait_bounds least most c.policy) c
  apply_option l version (with_header k v) c =
      if str_eq k ""
      then refused empty_header
      else built (record c { default_headers = set c.default_headers (l.canonical k) v })

  abbrev pub then_apply : Built K → (Client K → Built K) → Built K
  then_apply (refused e) f = refused e
  then_apply (built c) f = f c

  -- The loop over the options; none is a nil option.
  unfoldable pub apply_options :
      Library → String → List (Option (ClientOption K)) → Client K → Built K
  apply_options l version [] c = built c
  apply_options l version (none ∷ os) c = apply_options l version os c
  apply_options l version (some o ∷ os) c =
      then_apply (apply_option l version o c) (apply_options l version os)

  abbrev pub default_client : String → Client K
  default_client version = record {
    auth = none;
    base_url = record { scheme = "https"; host = "api.warmbly.com"; path = codes "/v1/" };
    http_client = none;
    user_agent = default_user_agent version;
    default_headers = [];
    policy = default_policy;
  }

  abbrev pub with_credentials : Client K → Option (Credential K) → Built K
  with_credentials c none = refused no_credentials
  with_credentials c (some a) = built c

  abbrev pub checked : Built K → Built K
  checked (refused e) = refused e
  checked (built c) = with_credentials c c.auth

  -- `New`.
  unfoldable pub new : Library → String → List (Option (ClientOption K)) → Built K
  new l version opts = checked (apply_options l version opts (default_client version))
