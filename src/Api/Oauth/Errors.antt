-- ===== src/Api/Oauth/Errors.antt =====
-- The error of the token endpoint and the verifier of a request (oauth_flow.go). encoding/json,
-- encoding/base64, crypto/sha256, the random source, strconv and net/http's status texts are
-- parameters.
use warmbly_go.Common.{ℕ, Bool, Option, none, some, if◌then◌else◌}
use warmbly_go.Common.Text.{String, Bytes, str_eq, join}

-- `body` is the raw body.
pub record Oauth2Error : Type 0 where
  pub status_code : ℕ
  pub code : String
  pub description : String
  pub uri : String
  pub message : String
  pub request_id : String
  pub body : Bytes

abbrev pub blank_oauth2_error : ℕ → Bytes → Oauth2Error
blank_oauth2_error status body = record {
  status_code = status;
  code = "";
  description = "";
  uri = "";
  message = "";
  request_id = "";
  body = body;
}

-- `unmarshal` sets the fields that it can decode.
unfoldable pub parse_oauth2_error :
    (Bytes → Bool) → (Bytes → Oauth2Error → Oauth2Error) → ℕ → Bytes → Oauth2Error
parse_oauth2_error is_blank unmarshal status body =
    let e = blank_oauth2_error status body in if is_blank body then e else unmarshal body e

abbrev pub or_else : String → String → String
or_else s other = if str_eq s "" then other else s

unfoldable pub oauth2_error_text : (ℕ → String) → (ℕ → String) → Oauth2Error → String
oauth2_error_text format_int status_text e =
    let msg = or_else e.description e.message in
    let code = or_else e.code (status_text e.status_code) in
    let told = if str_eq msg "" then "" else join ": " msg in
    let request =
      if str_eq e.request_id "" then "" else join " [request_id=" (join e.request_id "]") in
    join "warmbly: oauth2: "
      (join (format_int e.status_code) (join " " (join code (join told request))))

-- None is a panic: the random source failed. `random` draws 32 bytes.
unfoldable pub generate_verifier : (Bytes → Bytes) → Option Bytes → Option Bytes
generate_verifier base64 none = none
generate_verifier base64 (some random) = some (base64 random)

unfoldable pub s256_challenge : (Bytes → Bytes) → (Bytes → Bytes) → Bytes → Bytes
s256_challenge base64 sha256 verifier = base64 (sha256 verifier)
