-- ===== src/Api/Errors.antt =====
-- `Error` of errors.go, and `decodeError` and `parseRateLimit` of client.go.
-- net/http, strconv and encoding/json are not this repository's: their calls are parameters.
pub mod Classes
use warmbly_go.Common.{
  ℕ, ◌+◌, ◌*◌, ◌/◌, Bool, true, false, not, ◌&&◌, ◌||◌, Option, none, some, ◌==◌, if◌then◌else◌,
  leb, ltb, List, [],
}
use warmbly_go.Common.Int.{ℤ, pos, negsuc, ltb_ℤ, sub_ℕ, scale, wrap64}
use warmbly_go.Common.Text.{String, str_eq, Bytes, join}

pub record ApiError : Type 0 where
  pub status_code : ℕ
  pub kind : String
  pub message : String
  pub code : String
  pub request_id : String
  pub retry_after : ℤ

-- What errors.Is may be asked for: the sentinel ErrServer, which is compared as a pointer, another
-- `*Error`, or an error of another type.
pub data Target : Type 0 where
  err_server other_type : Target
  api_error : ApiError → Target

unfoldable pub matches : ApiError → Target → Bool
matches e err_server = leb 500 e.status_code
matches e other_type = false
matches e (api_error t) = e.status_code == t.status_code

-- `HasCode`, also of a nil error.
unfoldable pub has_code : Option ApiError → String → Bool
has_code none code = false
has_code (some e) code = not (str_eq code "") && str_eq e.code code

unfoldable pub temporary : ApiError → Bool
temporary e = (e.status_code == 429) || leb 500 e.status_code

-- A response's headers, as `Header.Get` reads them: the empty text for none.
abbrev pub Header : Type 0
Header = String → String

-- The package's calls of others: strconv.Atoi, with its number and whether there is no error (a number out
-- of range is an error with the nearest number that is in range); http.ParseTime and time.Until together, in nanoseconds
-- from now; json.Unmarshal into the error, `none` for a body that is blank.
pub record Decoding : Type 0 where
  pub atoi : String → ℤ × Bool
  pub until : String → Option ℤ
  pub unmarshal_error : Bytes → ApiError → ApiError
  pub is_blank : Bytes → Bool

pub record RateLimit : Type 0 where
  pub limit : ℤ
  pub remaining : ℤ
  pub policy : String
  pub retry_after : ℤ

-- `strconv.Atoi` with its error dropped.
abbrev pub atoi_header : Decoding → String → ℤ
atoi_header d v = if str_eq v "" then pos 0 else (d.atoi v).0

abbrev pub positive_wait : Option ℤ → ℤ
positive_wait none = pos 0
positive_wait (some t) = if ltb_ℤ (pos 0) t then t else pos 0

abbrev pub quoted_wait : ℤ × Bool → Option ℤ → ℤ
quoted_wait (secs, true) date = wrap64 (scale secs 1000000000)
quoted_wait (secs, false) date = positive_wait date

unfoldable pub parse_rate_limit : Decoding → Header → RateLimit
parse_rate_limit d h = record {
  limit = atoi_header d (h "X-RateLimit-Limit");
  remaining = atoi_header d (h "X-RateLimit-Remaining");
  policy = h "X-RateLimit-Policy";
  retry_after =
      let v = h "Retry-After" in if str_eq v "" then pos 0 else quoted_wait (d.atoi v) (d.until v);
}

-- A positive duration in whole seconds, rounded up, with the sum in 64 bits.
abbrev pub round_up : ℤ → ℤ
round_up (pos ns) = seconds_of (wrap64 (pos (ns + 999999999)))
  where
    seconds_of : ℤ → ℤ
    seconds_of (pos n) = pos (n / 1000000000)
    seconds_of (negsuc n) = sub_ℕ 0 ((n + 1) / 1000000000)
round_up (negsuc n) = pos 0

abbrev pub blank_error : ℕ → ApiError
blank_error status = record {
  status_code = status;
  kind = "";
  message = "";
  code = "";
  request_id = "";
  retry_after = pos 0;
}

abbrev pub is_zero : ℤ → Bool
is_zero (pos n) = n == 0
is_zero (negsuc n) = false

abbrev pub fill_in : Decoding → Header → ApiError → ApiError
fill_in d h e = record e {
  request_id = if str_eq e.request_id "" then h "X-Request-ID" else e.request_id;
  retry_after =
      let wait = (parse_rate_limit d h).retry_after in
      if is_zero e.retry_after && ltb_ℤ (pos 0) wait then round_up wait else e.retry_after;
}

-- `decodeError`: none for a response with a 2xx status.
unfoldable pub decode_error : Decoding → ℕ → Header → Bytes → Option ApiError
decode_error d status h body =
    if leb 200 status && ltb status 300
    then none
    else some (
        fill_in d h (
          if d.is_blank body
          then blank_error status
          else record (d.unmarshal_error body (blank_error status)) { status_code = status }))

-- `Error.Error`, with strconv and `http.StatusText` as parameters.
unfoldable pub error_text : (ℕ → String) → (ℕ → String) → ApiError → String
error_text format_int status_text e =
    let msg = if str_eq e.message "" then status_text e.status_code else e.message in
    let code = if str_eq e.code "" then "" else join " (" (join e.code ")") in
    let request =
      if str_eq e.request_id "" then "" else join " [request_id=" (join e.request_id "]") in
    join "warmbly: " (join (format_int e.status_code) (join code (join ": " (join msg request))))
