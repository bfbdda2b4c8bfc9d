-- ===== src/Api/Responses.antt =====
-- What client.go makes of an answer: `newResponse` and `decodeBody`. A body is its bytes; reading it
-- does not fail here.
use warmbly_go.Common.{ℕ, Bool, ◌==◌, if◌then◌else◌}
use warmbly_go.Common.Text.{String, Bytes}
use warmbly_go.Api.Errors.{Header, Decoding, RateLimit, parse_rate_limit}

pub record Response : Type 0 where
  pub request_id : String
  pub api_version : String
  pub deprecation : String
  pub sunset : String
  pub warning : String
  pub idempotent_replayed : Bool
  pub rate_limit : RateLimit

-- `equal_fold` is strings.EqualFold.
unfoldable pub new_response : Decoding → (String → String → Bool) → Header → Response
new_response d equal_fold header = record {
  request_id = header "X-Request-ID";
  api_version = header "API-Version";
  deprecation = header "Deprecation";
  sunset = header "Sunset";
  warning = header "Warning";
  idempotent_replayed = equal_fold (header "X-Idempotent-Replayed") "true";
  rate_limit = parse_rate_limit d header;
}

-- What the caller wants of the body: nothing, a copy in a writer, or a value.
pub data Wanted : Type 0 where
  no_target writer into : Wanted

-- What json.Decoder makes of the body: a value, io.EOF for an empty one, or an error.
pub data Json (A : Type 0) : Type 0 where
  value : A → Json A
  empty : Json A
  malformed : Json A

-- `unchanged` is a success that leaves the caller's value as it was.
pub data Decoded (A : Type 0) : Type 0 where
  discarded unchanged : Decoded A
  copied : Bytes → Decoded A
  decoded_to : A → Decoded A
  decode_failed : Decoded A

module _ {A : Type 0} where
  abbrev pub of_json : Json A → Decoded A
  of_json (value a) = decoded_to a
  of_json empty = unchanged
  of_json malformed = decode_failed

  unfoldable pub decode_body : (Bytes → Json A) → ℕ → Wanted → Bytes → Decoded A
  decode_body json status no_target body = discarded
  decode_body json status writer body = if status == 204 then discarded else copied body
  decode_body json status into body = if status == 204 then discarded else of_json (json body)
