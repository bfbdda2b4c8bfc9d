-- ===== src/Api/Requests/Examples.antt =====
-- The theorem on a request's headers at a concrete input.
use warmbly_go.Common.{◌≡◌, Option, none, some, List, [], ◌∷◌, if◌then◌else◌, arith}
use warmbly_go.Common.Text.{String, codes, str_eq, eq_iff}
use warmbly_go.Services.Query.{Query, get_all}
use warmbly_go.Api.Requests.{
  RequestOption, with_request_header, with_query_param, new_request_config, request_headers,
}
use warmbly_go.Api.Requests.Precedence.{last_header, gathered, request_headers-get_all}

abbrev canonical : String → String
canonical k = if str_eq k "user-agent" then "User-Agent" else k

canonical-canonical : (k : String) → canonical (canonical k) ≡ canonical k
canonical-canonical k = ground (arith, eq_iff k "user-agent")

abbrev options : List (Option RequestOption)
options =
    some (with_request_header "user-agent" (codes "a"))
    ∷ none
    ∷ some (with_query_param "q" (codes "b"))
    ∷ []

abbrev defaults : Query
defaults = ("X-Trace", codes "t" ∷ []) ∷ []

request_headers-get_all_example :
    get_all
      (request_headers canonical defaults (codes "sdk") none (new_request_config canonical options))
      "X-Trace"
    ≡ codes "t" ∷ []
unfolding last_header gathered
request_headers-get_all_example =
    request_headers-get_all canonical canonical-canonical defaults (codes "sdk") none options
      "X-Trace"
