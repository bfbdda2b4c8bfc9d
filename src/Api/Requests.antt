-- ===== src/Api/Requests.antt =====
-- How client.go turns a path, a body and the options of a call into a request: `newRequestConfig`, the
-- options, and `newRequest` up to `ResolveReference`. Headers and parameters are maps from a key
-- to values. `canonical` is `http.CanonicalHeaderKey`.
mod Examples
pub mod Precedence
use warmbly_go.Common.{Bool, true, false, Option, none, some, List, [], ◌∷◌, ◌==◌, if◌then◌else◌}
use warmbly_go.Common.Text.{String, Bytes, codes, str_eq}
use warmbly_go.Services.Query.{Query, set, add}
use warmbly_go.Services.Call.{Verb}

-- `WithRequestHeader` and `WithQueryParam`.
pub data RequestOption : Type 0 where
  with_request_header with_query_param : String → Bytes → RequestOption

abbrev pub with_idempotency_key : Bytes → RequestOption
with_idempotency_key key = with_request_header "Idempotency-Key" key

pub record RequestConfig : Type 0 where
  pub header : Query
  pub query : Query

abbrev pub no_config : RequestConfig
no_config = record { header = []; query = [] }

unfoldable pub apply_option :
    (String → String) → Option RequestOption → RequestConfig → RequestConfig
apply_option canonical none cfg = cfg
apply_option canonical (some (with_request_header k v)) cfg =
    if str_eq k "" then cfg else record cfg { header = set cfg.header (canonical k) v }
apply_option canonical (some (with_query_param k v)) cfg =
    if str_eq k "" then cfg else record cfg { query = set cfg.query k v }

unfoldable pub apply_options :
    (String → String) → List (Option RequestOption) → RequestConfig → RequestConfig
apply_options canonical [] cfg = cfg
apply_options canonical (o ∷ os) cfg = apply_options canonical os (apply_option canonical o cfg)

unfoldable pub new_request_config : (String → String) → List (Option RequestOption) → RequestConfig
new_request_config canonical opts = apply_options canonical opts no_config

-- `m[k] = vs`.
unfoldable pub set_values : Query → String → List Bytes → Query
set_values [] k vs = (k, vs) ∷ []
set_values ((j, ws) ∷ q) k vs = if str_eq k j then (k, vs) ∷ q else (j, ws) ∷ set_values q k vs

-- The entries of a map replace those of another. Its keys differ, so that their order does not matter.
unfoldable pub override : Query → Query → Query
override q [] = q
override q ((k, vs) ∷ over) = set_values (override q over) k vs

unfoldable pub add_all : (String → String) → Query → String → List Bytes → Query
add_all canonical q k [] = q
add_all canonical q k (v ∷ vs) = add_all canonical (add q (canonical k) v) k vs

unfoldable pub add_defaults : (String → String) → Query → Query → Query
add_defaults canonical q [] = q
add_defaults canonical q ((k, vs) ∷ defaults) =
    add_defaults canonical (add_all canonical q k vs) defaults

abbrev pub content_type : Option Bytes → Query
content_type none = []
content_type (some body) = ("Content-Type", codes "application/json" ∷ []) ∷ []

-- The keys of the configured headers, made canonical once more.
unfoldable pub override_headers : (String → String) → Query → Query → Query
override_headers canonical q [] = q
override_headers canonical q ((k, vs) ∷ over) =
    set_values (override_headers canonical q over) (canonical k) vs

unfoldable pub request_headers :
    (String → String) → Query → Bytes → Option Bytes → RequestConfig → Query
request_headers canonical defaults user_agent body cfg =
    let h = add_defaults canonical (content_type body) defaults in
    let h = set h "Accept" (codes "application/json") in
    override_headers canonical (set h "User-Agent" user_agent) cfg.header

-- What the code takes from net/url: a reference is split into its path and its raw query.
pub record UrlCodec : Type 0 where
  pub parse : Bytes → Option (Bytes × Bytes)
  pub parse_query : Bytes → Query
  pub encode : Query → Bytes

abbrev pub merged_query : UrlCodec → Bytes → Query → Bytes
merged_query u raw [] = raw
merged_query u raw (kv ∷ q) = u.encode (override (u.parse_query raw) (kv ∷ q))

abbrev pub trim_slash : Bytes → Bytes
trim_slash [] = []
trim_slash (b ∷ bs) = if b == 47 then bs else b ∷ bs

-- A request before its reference is resolved; `body` is also what `GetBody` returns again.
pub record HttpRequest : Type 0 where
  pub method : Verb
  pub path : Bytes
  pub raw_query : Bytes
  pub headers : Query
  pub body : Option Bytes

-- `newRequest`; none is an invalid path. The body is encoded already.
unfoldable pub new_request :
    (String → String)
    → UrlCodec
    → Query
    → Bytes
    → Verb
    → Bytes
    → Option Bytes
    → RequestConfig
    → Option HttpRequest
new_request canonical u defaults user_agent method ref_path body cfg =
    elim (u.parse (trim_slash ref_path)) [
      | none ↦ none
      | some (path, raw) ↦ some (record {
        method = method;
        path = path;
        raw_query = merged_query u raw cfg.query;
        headers = request_headers canonical defaults user_agent body cfg;
        body = body;
      })
    ]
